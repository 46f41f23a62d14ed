-- ===== src/Resume.antt =====
-- src/resume.rs, adoption: a handle that was kept over a resume joins the registries of the new session.
mod Tests
use vivid_sdk.Prelude.{
  ◌+◌, ◌-◌, ◌*◌, ◌/◌, ◌%◌, ◌^◌, ◌≤◌, ◌<◌, min, max, ℕ, zero, suc, ◌≡◌, refl, sym, ap, ◌∙◌, ◌≢◌, ◌↔◌,
  ◌⊎◌, inl, inr, Bool, true, false, not, ◌&&◌, ◌||◌, Option, none, some, List, [], ◌∷◌, ◌++◌, map,
  arith, ltb, leb, ◌==◌, if◌then◌else◌, ltb→lt, lt→ltb, leb→le, ==_iff, Bool-cases, Option-cases,
  length, get_elem?, All, length-append, get_elem?-some, Result, ok, err, Result-cases, refused,
  ◌>>=◌, ◌>>◌, refuse_if, or_fail, u32_max, u64_max, saturating_add, saturating_mul, checked_add,
  duration_max, add_duration, as_micros,
}
use mathlib.Core.Path.{subst}
use vivid_sdk.Control.State
use vivid_sdk.Control.State.{advance_allocator_past}
use vivid_sdk.Session.{Error, control, Answer, invalid_input}
use vivid_sdk.Track.{TrackLocal}
use vivid_sdk.Track.Query.{TrackStatus, ends_track, query_track}
use vivid_sdk.Surface.{Canvas, SurfaceLocal}
use vivid_sdk.Surface.Query.{SurfaceStatus, query_surface}

-- A registry entry: a key, and the number of the shared object that it refers to. Two handles are the
-- same (`Arc::ptr_eq`) when their numbers are.
pub record Entry (Key : Type 0) : Type 0 where
  pub key : Key
  pub object : ℕ

-- What `insert` finds under a key.
pub data Found : Type 0 where
  absent same_object other_object : Found

unfoldable pub find_entry : {Key : Type 0} → (Key → Key → Bool) → List (Entry Key) → Key → ℕ → Found
find_entry same [] key object = absent
find_entry same (x ∷ xs) key object =
    let rest = find_entry same xs key object in
    if same x.key key then (if x.object == object then same_object else other_object) else rest

abbrev pub same_pair : ℕ × ℕ → ℕ × ℕ → Bool
same_pair a b = a.0 == b.0 && a.1 == b.1

abbrev pub same_triple : ℕ × ℕ × ℕ → ℕ × ℕ × ℕ → Bool
same_triple a b = a.0 == b.0 && (a.1 == b.1 && a.2 == b.2)

-- The registries and the ID allocator of the session that adopts.
pub record Adopter : Type 0 where
  pub surfaces : List (Entry (ℕ × ℕ))
  pub tracks : List (Entry (ℕ × ℕ × ℕ))
  pub next_id : ℕ

-- The entry is inserted before the allocator is moved past its ID.
unfoldable pub pass_id : Adopter → ℕ → Adopter × Result Error (Unit {0})
pass_id a id = elim (advance_allocator_past a.next_id id) [
  | err e ↦ (a, err (control e))
  | ok next ↦ (record a { next_id = next }, ok tt)
]

unfoldable pub insert_surface : Adopter → ℕ × ℕ → ℕ → Adopter × Result Error (Unit {0})
insert_surface a key object = elim (find_entry same_pair a.surfaces key object) [
  | same_object ↦ (a, ok tt)
  | other_object ↦ (a, err invalid_input)
  | absent ↦
      pass_id (record a { surfaces = record { key = key; object = object } ∷ a.surfaces }) (key.1)
]

unfoldable pub insert_track : Adopter → ℕ × ℕ × ℕ → ℕ → Adopter × Result Error (Unit {0})
insert_track a key object = elim (find_entry same_triple a.tracks key object) [
  | same_object ↦ (a, ok tt)
  | other_object ↦ (a, err invalid_input)
  | absent ↦
      pass_id (record a { tracks = record { key = key; object = object } ∷ a.tracks }) (key.2)
]

unfoldable pub owns_surface : List (Entry (ℕ × ℕ)) → ℕ × ℕ → Bool
owns_surface [] key = false
owns_surface (x ∷ xs) key = same_pair x.key key || owns_surface xs key

module _ (c : Canvas) where
  -- `adopt_surface` of the handle to `object`; the query reconciles the surface before the registry
  -- is asked.
  unfoldable pub adopt_surface :
      Adopter
      → SurfaceLocal c
      → ℕ
      → Answer c.media.remote
      → (SurfaceLocal c → SurfaceLocal c)
      → Adopter × SurfaceLocal c × Result Error (SurfaceStatus c)
  adopt_surface a s object answer during =
      let (now, status) = query_surface c s answer during in
      elim status [
        | err e ↦ (a, now, err e)
        | ok x ↦
            if x.lifecycle == 3
            then (a, now, err invalid_input)
            else (let (b, r) = insert_surface a (x.context_id, x.surface_id) object in
                (b, now, (do r; ok x)))
      ]

  unfoldable pub adopt_track :
      Adopter
      → Bool
      → TrackLocal c.media
      → ℕ
      → Answer c.media.remote
      → (TrackLocal c.media → TrackLocal c.media)
      → Adopter × TrackLocal c.media × Result Error (TrackStatus c.media)
  adopt_track a gains t object answer during =
      if not (owns_surface a.surfaces (t.configuration.context_id, t.configuration.surface_id))
      then (a, t, err invalid_input)
      else (let (now, status) = query_track c.media gains t answer during in
          elim status [
            | err e ↦ (a, now, err e)
            | ok x ↦
                if ends_track c.media x.lifecycle
                then (a, now, err invalid_input)
                else (let (b, r) = insert_track a (x.context_id, x.surface_id, x.track_id) object in
                    (b, now, (do r; ok x)))
          ])

same_pair_refl : (k : ℕ × ℕ) → same_pair k k ≡ true
same_pair_refl k = ground arith

pass_id-surfaces : (a : Adopter) (id : ℕ) → (pass_id a id).0.surfaces ≡ a.surfaces
unfolding pass_id
pass_id-surfaces a id = elim (Result-cases (advance_allocator_past a.next_id id)) [
  | inl (n, h) ↦ ground arith
  | inr (e, h) ↦ ground arith
]

pass_id-next : (a : Adopter) (id : ℕ) → (pass_id a id).1 ≡ ok tt → id < (pass_id a id).0.next_id
unfolding pass_id advance_allocator_past
pass_id-next a id e = ground arith

find_first :
    (xs : List (Entry (ℕ × ℕ))) (key : ℕ × ℕ) (object : ℕ)
    → find_entry same_pair (record { key = key; object = object } ∷ xs) key object ≡ same_object
unfolding find_entry
find_first xs key object =
    let same = same_pair_refl key in
    let self : object == object ≡ true = ground arith in rw (same, self) refl

-- What `insert` leaves of the registry of surfaces when it succeeds.
record IsInserted (a b : Adopter) (key : ℕ × ℕ) (object : ℕ) : Type 0 where
  inserted : find_entry same_pair b.surfaces key object ≡ same_object
  fresh : find_entry same_pair a.surfaces key object ≡ absent → key.1 < b.next_id
  kept : find_entry same_pair a.surfaces key object ≡ same_object → b ≡ a

insert_surface-IsInserted :
    (a : Adopter) (key : ℕ × ℕ) (object : ℕ) (f : Found)
    → find_entry same_pair a.surfaces key object ≡ f
    → (insert_surface a key object).1 ≡ ok tt
    → IsInserted a (insert_surface a key object).0 key object
unfolding insert_surface find_entry
insert_surface-IsInserted a key object same_object h e =
    rw (h, insert_surface)
      record { inserted = h; fresh = λ i. absurd (ground arith); kept = λ i. refl }
insert_surface-IsInserted a key object other_object h e = absurd (ground arith)
insert_surface-IsInserted a key object absent h e =
    let b : Adopter = record a { surfaces = record { key = key; object = object } ∷ a.surfaces } in
    let own = pass_id-surfaces b key.1 in
    rw (h, insert_surface)
      record {
        inserted = rw own (find_first a.surfaces key object);
        fresh = λ i. pass_id-next b key.1 (ground arith);
        kept = λ i. absurd (ground arith);
      }

-- How a session holds a surface that it adopted.
pub record IsAdopted (a b : Adopter) (key : ℕ × ℕ) (object : ℕ) : Type 0 where
  pub registered : find_entry same_pair b.surfaces key object ≡ same_object
  pub passed : find_entry same_pair a.surfaces key object ≡ absent → key.1 < b.next_id
  pub stable : find_entry same_pair a.surfaces key object ≡ same_object → b ≡ a
  pub again : insert_surface b key object ≡ (b, ok tt)

again_of :
    (b : Adopter) (key : ℕ × ℕ) (object : ℕ)
    → find_entry same_pair b.surfaces key object ≡ same_object
    → insert_surface b key object ≡ (b, ok tt)
unfolding insert_surface
again_of b key object h = rw (h, insert_surface) refl

inserted-IsAdopted :
    (a : Adopter) (key : ℕ × ℕ) (object : ℕ)
    → (insert_surface a key object).1 ≡ ok tt
    → IsAdopted a (insert_surface a key object).0 key object
inserted-IsAdopted a key object e =
    let b = (insert_surface a key object).0 in
    let r =
      insert_surface-IsInserted a key object (find_entry same_pair a.surfaces key object) refl e in
    record {
      registered = r.inserted;
      passed = r.fresh;
      stable = r.kept;
      again = again_of b key object r.inserted;
    }

module _ (c : Canvas) where
  -- A surface that is adopted is no tombstone and is registered under its identity by the very handle
  -- that was adopted; if it was new, the ID allocator is past its ID; if it was there already, the
  -- registry and the allocator are as they were; and inserting the handle into the registry once more
  -- succeeds and leaves both as they are.
  pub adopt_surface-IsAdopted :
      (a : Adopter) (s : SurfaceLocal c) (object : ℕ) (answer : Answer c.media.remote)
      (during : SurfaceLocal c → SurfaceLocal c) (x : SurfaceStatus c)
      → (adopt_surface c a s object answer during).2 ≡ ok x
      → (x.lifecycle ≢ 3)
        × IsAdopted a
            (adopt_surface c a s object answer during).0
            (x.context_id, x.surface_id)
            object
  unfolding adopt_surface
  adopt_surface-IsAdopted a s object answer during x e =
      elim (Result-cases (query_surface c s answer during).1) [
        | inr (z, h) ↦ absurd (ground arith)
        | inl (y, h) ↦ elim (Bool-cases (y.lifecycle == 3)) [
          | inl tomb ↦ absurd (ground arith)
          | inr alive ↦
              elim (Result-cases (insert_surface a (y.context_id, y.surface_id) object).1) [
                | inr (z, i) ↦ absurd (ground arith)
                | inl (u, i) ↦
                    let same : ◌≡◌ {A = SurfaceStatus c} y x = ground arith in
                    subst
                      (λ (b : Adopter).
                        (x.lifecycle ≢ 3) × IsAdopted a b (x.context_id, x.surface_id) object)
                      (rw (h, adopt_surface, alive) refl)
                      (subst
                        (λ (w : SurfaceStatus c).
                          (w.lifecycle ≢ 3)
                          × IsAdopted a (insert_surface a (y.context_id, y.surface_id) object).0
                              (w.context_id, w.surface_id) object)
                        same
                        (ground arith, inserted-IsAdopted a (y.context_id, y.surface_id) object i))
              ]
        ]
      ]
