-- ===== src/Transfer/Stream.antt =====
-- The bytes that a transfer of src/file_drop.rs hands out over its reads and grants.
use vivid_sdk.Prelude.{
  ◌+◌, ◌≤◌, ℕ, ◌≡◌, refl, ◌∙◌, ◌⊎◌, inl, inr, Bool, true, false, List, [], ◌∷◌, ◌++◌, arith, length,
  length-append, Result, ok, err,
}
use vivid_sdk.Transfer.{
  TransferFlow, Error, Record, Event, data_event, finished, aborted, Transfer, read_event, grant,
}
use vivid_sdk.Transfer.Reads.{
  Reads, reads_data, reads_finish, reads_abort, reads_error, read_event-Reads,
}

module _ (f : TransferFlow) (Byte : Type 0) where
  -- The calls of a user of the transfer.
  pub data Call : Type 0 where
    reads : Record Byte → Call
    grants : ℕ → ℕ → Bool → Call

  -- What was handed out so far: the bytes in their order, and whether every read succeeded.
  pub record Received : Type 0 where
    pub transfer : Transfer f Byte
    pub bytes : List Byte
    pub intact : Bool
    pub is_complete : Bool

  abbrev pub note : Received → Transfer f Byte × Result Error (Event Byte) → Received
  note s (t, ok (data_event offset bytes)) = record s { transfer = t; bytes = s.bytes ++ bytes }
  note s (t, ok (finished x)) = record s { transfer = t; is_complete = true }
  note s (t, ok (aborted x)) = record s { transfer = t }
  note s (t, err e) = record s { transfer = t; intact = false }

  unfoldable pub step : Received → Call → Received
  step s (reads r) = note s (read_event f Byte s.transfer r)
  step s (grants b r written) = record s { transfer = (grant f Byte s.transfer b r written).0 }

  unfoldable pub run : Received → List Call → Received
  run s [] = s
  run s (c ∷ cs) = run (step s c) cs

  abbrev pub start : Transfer f Byte → Received
  start t = record { transfer = t; bytes = []; intact = true; is_complete = false }

  -- What holds of what was received from a transfer that began at `first`, of a file of `declared`
  -- bytes.
  record Inv (first declared : ℕ) (s : Received) : Type 0 where
    same : s.transfer.declared_length ≡ declared
    offset : (s.intact ≡ false) ⊎ (f.next_offset s.transfer.flow ≡ first + length s.bytes)
    within : (s.intact ≡ false) ⊎ ((length s.bytes ≡ 0) ⊎ (first + length s.bytes ≤ declared))
    whole : (s.intact ≡ false) ⊎ ((s.is_complete ≡ false) ⊎ (first + length s.bytes ≡ declared))

  broken_Inv :
      (first declared : ℕ) (s : Received)
      → s.transfer.declared_length ≡ declared
      → s.intact ≡ false
      → Inv first declared s
  broken_Inv first declared s same e = record {
    same = same;
    offset = inl e;
    within = inl e;
    whole = inl e;
  }

  note-Inv :
      (first declared : ℕ) (s : Received) (r : Transfer f Byte × Result Error (Event Byte))
      → Reads f Byte s.transfer r
      → Inv first declared s
      → Inv first declared (note s r)
  note-Inv first declared s r (reads_data u bytes moved keeps fits) v =
      let longer = length-append s.bytes bytes in
      record {
        same = keeps ∙ v.same;
        offset = ground (arith, v.offset);
        within = ground (arith, v.offset, v.same);
        whole = ground (arith, v.offset, v.same, v.whole);
      }
  note-Inv first declared s r (reads_finish x whole reached) v = record {
    same = v.same;
    offset = v.offset;
    within = v.within;
    whole = ground (arith, v.offset, v.same);
  }
  note-Inv first declared s r (reads_abort x reached) v = record {
    same = v.same;
    offset = v.offset;
    within = v.within;
    whole = v.whole;
  }
  note-Inv first declared s r (reads_error u e keeps) v =
      broken_Inv first declared (note s (u, err e)) (keeps ∙ v.same) refl

  grant_declared :
      (t : Transfer f Byte) (b r : ℕ) (written : Bool)
      → (grant f Byte t b r written).0.declared_length ≡ t.declared_length
  unfolding grant
  grant_declared t b r true = refl
  grant_declared t b r false = refl

  grant_offset :
      (t : Transfer f Byte) (b r : ℕ) (written : Bool)
      → f.next_offset (grant f Byte t b r written).0.flow ≡ f.next_offset t.flow
  unfolding grant
  grant_offset t b r true = f.raise_offset t.flow b r
  grant_offset t b r false = refl

  step-Inv :
      (first declared : ℕ) (s : Received) (c : Call)
      → Inv first declared s
      → Inv first declared (step s c)
  unfolding step
  step-Inv first declared s (reads r) v =
      note-Inv first declared s (read_event f Byte s.transfer r)
        (read_event-Reads f Byte s.transfer r) v
  step-Inv first declared s (grants b r written) v = record {
    same = grant_declared s.transfer b r written ∙ v.same;
    offset = ground (arith, v.offset, grant_offset s.transfer b r written);
    within = v.within;
    whole = v.whole;
  }

  run-Inv :
      (first declared : ℕ) (s : Received) (cs : List Call)
      → Inv first declared s
      → Inv first declared (run s cs)
  unfolding run
  run-Inv first declared s [] v = v
  run-Inv first declared s (c ∷ cs) v =
      run-Inv first declared (step s c) cs (step-Inv first declared s c v)

  start-Inv : (t : Transfer f Byte) → Inv (f.next_offset t.flow) t.declared_length (start t)
  start-Inv t = record {
    same = refl;
    offset = inr (omega arith);
    within = inr (inl refl);
    whole = inr (inl refl);
  }

  -- While no read has failed, the next offset is the first one and the number of bytes handed out: no
  -- byte is missing, none comes twice, and if there are any they end within the declared length.
  pub received_in_order :
      (t : Transfer f Byte) (cs : List Call)
      → (run (start t) cs).intact ≡ true
      → let s = run (start t) cs in
        (f.next_offset s.transfer.flow ≡ f.next_offset t.flow + length s.bytes)
        × ((length s.bytes ≡ 0) ⊎ (f.next_offset t.flow + length s.bytes ≤ t.declared_length))
  received_in_order t cs intact =
      let v = run-Inv (f.next_offset t.flow) t.declared_length (start t) cs (start-Inv t) in
      (ground (arith, v.offset), ground (arith, v.within))

  -- Once the finish was read and no read has failed, the bytes handed out are the whole rest of the
  -- file, whatever reads and grants came before and after it.
  pub finished_is_whole :
      (t : Transfer f Byte) (cs : List Call)
      → (run (start t) cs).intact ≡ true
      → (run (start t) cs).is_complete ≡ true
      → f.next_offset t.flow + length (run (start t) cs).bytes ≡ t.declared_length
  finished_is_whole t cs intact complete =
      let v = run-Inv (f.next_offset t.flow) t.declared_length (start t) cs (start-Inv t) in
      ground (arith, v.whole)
