-- ===== src/Pane/Presents.antt =====
-- How presenting an image in src/pane.rs ends, and what it claims.
use vivid_sdk.Prelude.{
  ◌+◌, ◌*◌, ◌≤◌, ℕ, ◌≡◌, true, false, none, some, List, [], ◌∷◌, ◌++◌, arith, Result, ok, err,
  u32_max,
}
use vivid_sdk.Pane.{Error, validate_dimensions, session_failed}
use vivid_sdk.Pane.Show.{
  Call, creates_surface, deletes_node, destroys_surface, places_node, creates_track, opens_channel,
  sends_image, activates, Oracle, PaneSession, ImageClaims, checked_u64, rgba_claims, call, clear,
  take_id,
}

-- A raster that is accepted has a record body of four bytes for each pixel and 72 more, which fits the
-- limit of a record, and its claims of bits and pixels are exact.
pub rgba_claims_exact :
    (width height rgba_length : ℕ) (x : ImageClaims)
    → rgba_claims width height rgba_length ≡ ok x
    → (x.record_body ≡ rgba_length + 72)
      × (rgba_length ≡ x.width * x.height * 4)
      × (x.pixels ≡ x.width * x.height)
      × (x.bits ≡ x.record_body * 8)
      × (x.record_body ≤ u32_max)
unfolding rgba_claims checked_u64 validate_dimensions
rgba_claims_exact width height rgba_length x e =
    (ground arith, ground arith, ground arith, ground arith, ground arith)

module _ (o : Oracle) where
  -- The pane after its clearing, where it took the IDs of a surface and a node.
  abbrev pub prepared : PaneSession → PaneSession
  prepared s = take_id o (take_id o (clear o s).0)

  -- The pane when its surface has been asked for, under the next free ID.
  abbrev pub asked : PaneSession → PaneSession
  asked s = (call o (creates_surface (clear o s).0.next_id) (prepared s)).0

  -- How a presentation ends.
  pub data Presents (s : PaneSession) : PaneSession × Result Error (Unit {0}) → Type 0 where
    rejected : (e : Error) → Presents s (s, err e)
    not_cleared :
        (e : Error)
        → (clear o s).1 ≡ err e
        → (clear o s).0.current ≡ none
        → Presents s ((clear o s).0, err e)
    no_surface :
        (clear o s).1 ≡ ok tt
        → o (clear o s).0.calls (creates_surface (clear o s).0.next_id) ≡ false
        → (asked s).current ≡ none
        → Presents s (asked s, err session_failed)
    cleaned_up :
        (u : PaneSession) (e : Error) (calls : List Call)
        → (clear o s).1 ≡ ok tt
        → o (clear o s).0.calls (creates_surface (clear o s).0.next_id) ≡ true
        → u.current ≡ none
        → u.calls
          ≡ (((asked s).calls ++ calls) ++ deletes_node ((clear o s).0.next_id + 1) ∷ [])
            ++ destroys_surface (clear o s).0.next_id ∷ []
        → Presents s (u, err e)
    shown :
        (u : PaneSession)
        → u.current
          ≡ some record { surface_id = (clear o s).0.next_id; node_id = (clear o s).0.next_id + 1 }
        → u.calls
          ≡ (asked s).calls
            ++ places_node ((clear o s).0.next_id + 1)
              ∷ creates_track (clear o s).0.next_id
              ∷ opens_channel (clear o s).0.next_id
              ∷ sends_image (clear o s).0.next_id
              ∷ activates (clear o s).0.next_id
              ∷ []
        → Presents s (u, ok tt)
