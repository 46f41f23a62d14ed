-- ===== src/Surface/Lifecycle.antt =====
-- What updating and destroying a surface of src/surface.rs leave.
use vivid_sdk.Prelude.{
  ◌+◌, ◌≤◌, ℕ, ◌≡◌, refl, ap, ◌∙◌, ◌⊎◌, inl, inr, Bool, true, false, Option, none, some, List, [],
  ◌∷◌, arith, leb, if◌then◌else◌, Bool-cases, Option-cases, Result, ok, err, Result-cases, u64_max,
  same_text-eq,
}
use Prim.Native.Nat.{bit_or}
use vivid_sdk.Session.{lift, Error, invalid_data}
use vivid_sdk.Wire.{ensure_live_surface}
use vivid_sdk.Track.{TrackLocal, FlowView, close_track_flow, owning_surface_destroyed}
use vivid_sdk.Surface.{
  advance, Canvas, SurfaceDefinition, Definitions, SurfaceLocal, Owned, Acknowledge, is_at,
  holds_surface, remove_surface, mapping_changed, request_update, apply_update, update_surface,
  orphan, is_on, retain_tracks, Destroyed, destroy_surface, request_about, owner_pair,
}

module _ (c : Canvas) where
  -- Two definitions map the surface in the same way.
  pub record SameMapping (a b : SurfaceDefinition c) : Type 0 where
    pub width : a.logical_width ≡ b.logical_width
    pub height : a.logical_height ≡ b.logical_height
    pub numerator : a.scale_numerator ≡ b.scale_numerator
    pub denominator : a.scale_denominator ≡ b.scale_denominator
    pub rotation_ : a.rotation ≡ b.rotation
    pub parameters : c.same_map a.profile_parameters b.profile_parameters ≡ true

  mapping_changed-SameMapping :
      (a b : SurfaceDefinition c) → mapping_changed c a b ≡ false → SameMapping a b
  unfolding mapping_changed
  mapping_changed-SameMapping a b e = record {
    width = ground arith;
    height = ground arith;
    numerator = ground arith;
    denominator = ground arith;
    rotation_ = ground arith;
    parameters = ground arith;
  }

  SameMapping-mapping_changed :
      (a b : SurfaceDefinition c) → SameMapping a b → mapping_changed c a b ≡ false
  unfolding mapping_changed
  SameMapping-mapping_changed a b v =
      ground (arith, v.width, v.height, v.numerator, v.denominator, v.rotation_, v.parameters)

  -- An update that is applied: the definition is stored, with a policy that keeps its old bits; the
  -- revision moves by one, and the generation by one exactly when the mapping is not the same;
  -- identity, profile and coordinate model stay.
  pub record IsUpdated (k : Definitions c) (s now u : SurfaceLocal c) (d : SurfaceDefinition c)
      : Type 0 where
    pub live : s.destroyed ≡ false
    pub valid : k.validate d ≡ true
    pub revision : u.revision ≡ now.revision + 1
    pub generation_kept : SameMapping s.definition d → u.generation ≡ now.generation
    pub generation_moved : ¬ SameMapping s.definition d → u.generation ≡ now.generation + 1
    pub stored : u.definition ≡ record d { policy = bit_or d.policy now.definition.policy }
    pub same_context : u.definition.context_id ≡ s.definition.context_id
    pub same_surface : u.definition.surface_id ≡ s.definition.surface_id
    pub same_profile : u.definition.semantic_profile ≡ s.definition.semantic_profile
    pub same_model : u.definition.coordinate_model ≡ s.definition.coordinate_model

  -- How an update ends; `now` is the surface after what others did while the request waited.
  pub data Updates (k : Definitions c) (s now : SurfaceLocal c) (d : SurfaceDefinition c)
      : SurfaceLocal c × Result Error (Unit {0}) → Type 0 where
    refused_ : (e : Error) → Updates k s now d (now, err e)
    revision_used_up : u64_max ≤ now.revision → Updates k s now d (now, err invalid_data)
    generation_used_up :
        ¬ SameMapping s.definition d
        → u64_max ≤ now.generation
        → Updates k s now d (record now { revision = now.revision + 1 }, err invalid_data)
    updated : (u : SurfaceLocal c) → IsUpdated k s now u d → Updates k s now d (u, ok tt)

  -- What an acknowledged update was checked for.
  record Checked (k : Definitions c) (s : SurfaceLocal c) (d : SurfaceDefinition c) : Type 0 where
    live_ : s.destroyed ≡ false
    valid_ : k.validate d ≡ true
    context : d.context_id ≡ s.definition.context_id
    surface : d.surface_id ≡ s.definition.surface_id
    profile : d.semantic_profile ≡ s.definition.semantic_profile
    model : d.coordinate_model ≡ s.definition.coordinate_model

  request_update-Checked :
      (k : Definitions c) (s : SurfaceLocal c) (d : SurfaceDefinition c) (a : Acknowledge c)
      → request_update c k s d a ≡ ok tt
      → Checked k s d
  unfolding request_update ensure_live_surface
  request_update-Checked k s d a e = record {
    live_ = ground arith;
    valid_ = ground arith;
    context = ground arith;
    surface = ground arith;
    profile = same_text-eq d.semantic_profile s.definition.semantic_profile (ground arith);
    model = ground arith;
  }

  advance-cases :
      (n : ℕ) → (advance c n ≡ ok (n + 1)) ⊎ ((advance c n ≡ err invalid_data) × (u64_max ≤ n))
  unfolding advance
  advance-cases n = elim (Bool-cases (leb (n + 1) u64_max)) [
    | inl fits ↦ inl (ground arith)
    | inr full ↦ inr (ground arith, ground arith)
  ]

  Checked-IsUpdated :
      (k : Definitions c) (s now u : SurfaceLocal c) (d : SurfaceDefinition c)
      → Checked k s d
      → u.revision ≡ now.revision + 1
      → (SameMapping s.definition d → u.generation ≡ now.generation)
      → (¬ SameMapping s.definition d → u.generation ≡ now.generation + 1)
      → u.definition ≡ record d { policy = bit_or d.policy now.definition.policy }
      → IsUpdated k s now u d
  Checked-IsUpdated k s now u d q moved kept changed same = record {
    live = q.live_;
    valid = q.valid_;
    revision = moved;
    generation_kept = kept;
    generation_moved = changed;
    same_context = ground arith;
    same_surface = ground arith;
    same_profile = ap (λ (x : SurfaceDefinition c). x.semantic_profile) same ∙ q.profile;
    same_model = ground arith;
    stored = same;
  }

  apply_update-Updates :
      (k : Definitions c) (s now : SurfaceLocal c) (d : SurfaceDefinition c) (changed : Bool)
      → mapping_changed c s.definition d ≡ changed
      → Checked k s d
      → Updates k s now d (apply_update c changed d now)
  unfolding apply_update
  apply_update-Updates k s now d false e q = elim (advance-cases now.revision) [
    | inr (h, full) ↦ rw (h, apply_update) (revision_used_up full)
    | inl h ↦
        rw (h, apply_update)
          (updated _ (
            Checked-IsUpdated k s now _ d q refl (λ i. refl)
              (λ i. absurd (i (mapping_changed-SameMapping s.definition d e))) refl))
  ]
  apply_update-Updates k s now d true e q =
      let differs : ¬ SameMapping s.definition d =
        λ v. absurd (let n = SameMapping-mapping_changed s.definition d v in ground arith) in
      elim (advance-cases now.revision) [
        | inr (h, full) ↦ rw (h, apply_update) (revision_used_up full)
        | inl h ↦ elim (advance-cases now.generation) [
          | inr (i, full) ↦ rw (h, apply_update, i) (generation_used_up differs full)
          | inl i ↦
              rw (h, apply_update, i)
                (updated _
                  (Checked-IsUpdated k s now _ d q refl (λ j. absurd (differs j)) (λ j. refl) refl))
        ]
      ]

  -- Every update ends in one of these ways: refused, with the surface as others left it; applied, to a
  -- live surface by a valid definition of the same identity, profile and model, which is stored with a
  -- policy that keeps its old bits, with the revision moved by one, and the generation moved by one
  -- exactly when width, height, scale, rotation or parameters differ; or with the revision used up, or the generation, and then the revision has
  -- moved already.
  pub update_surface-Updates :
      (k : Definitions c) (s : SurfaceLocal c) (d : SurfaceDefinition c) (a : Acknowledge c)
      (during : SurfaceLocal c → SurfaceLocal c)
      → Updates k s (during s) d (update_surface c k s d a during)
  unfolding update_surface
  update_surface-Updates k s d a during = elim (Result-cases (request_update c k s d a)) [
    | inr (e, h) ↦ rw (h, update_surface) (refused_ e)
    | inl (u, h) ↦
        rw (h, update_surface)
          (apply_update-Updates k s (during s) d (mapping_changed c s.definition d) refl
            (request_update-Checked k s d a h))
  ]

  remove_surface-holds :
      (ss : List (SurfaceLocal c)) (context_id surface_id : ℕ)
      → holds_surface c (remove_surface c ss context_id surface_id) context_id surface_id ≡ false
  unfolding remove_surface holds_surface
  remove_surface-holds [] context_id surface_id = refl
  remove_surface-holds (s ∷ ss) context_id surface_id =
      let rest = remove_surface-holds ss context_id surface_id in
      elim (Bool-cases (is_at c context_id surface_id s)) [
        | inl here ↦ rw here rest
        | inr other ↦ rw (other, other) rest
      ]

  -- The tracks of a surface, and those of other surfaces.
  abbrev pub those_on : ℕ → ℕ → List (TrackLocal c.media) → List (TrackLocal c.media)
  those_on context_id surface_id [] = []
  those_on context_id surface_id (t ∷ ts) =
      let rest = those_on context_id surface_id ts in
      if is_on c context_id surface_id t then t ∷ rest else rest

  abbrev pub those_elsewhere : ℕ → ℕ → List (TrackLocal c.media) → List (TrackLocal c.media)
  those_elsewhere context_id surface_id [] = []
  those_elsewhere context_id surface_id (t ∷ ts) =
      let rest = those_elsewhere context_id surface_id ts in
      if is_on c context_id surface_id t then rest else t ∷ rest

  -- A track of a destroyed surface: it keeps what it was configured with, and is destroyed, without a
  -- flow and without media.
  pub record IsOrphan (t u : TrackLocal c.media) : Type 0 where
    pub same_configuration : u.configuration ≡ t.configuration
    pub dead : u.destroyed ≡ true
    pub no_flow : u.active_flow ≡ none
    pub no_media : u.has_media ≡ false

  -- What becomes of the flow of such a track: closed, for this reason unless it was closed before.
  abbrev pub IsShut : TrackLocal c.media → Option (FlowView c.media) → Type 0
  IsShut t x =
      ((t.active_flow ≡ none) × (x ≡ none))
      ⊎ ((f : FlowView c.media) × (g : FlowView c.media) × (t.active_flow ≡ some f)
          × (x ≡ some g)
          × (g.closed ≡ true)
          × (f.diagnostic ≡ none → g.diagnostic ≡ some owning_surface_destroyed))

  -- Each track of the surface with what became of it and of its flow.
  abbrev pub Takes :
      List (TrackLocal c.media)
      → List (TrackLocal c.media)
      → List (Option (FlowView c.media))
      → Type 0
  Takes [] [] [] = Unit
  Takes (t ∷ ts) (u ∷ us) (x ∷ xs) = IsOrphan t u × IsShut t x × Takes ts us xs
  Takes ts us xs = ⊥

  orphan-IsOrphan : (t : TrackLocal c.media) → IsOrphan t (orphan c t)
  unfolding orphan
  orphan-IsOrphan t = record {
    same_configuration = refl;
    dead = refl;
    no_flow = refl;
    no_media = refl;
  }

  close_track_flow-IsShut :
      (t : TrackLocal c.media)
      → IsShut t (close_track_flow c.media t.active_flow owning_surface_destroyed)
  unfolding close_track_flow
  close_track_flow-IsShut t = elim (Option-cases t.active_flow) [
    | inl h ↦ inl (h, ap (λ o. close_track_flow c.media o owning_surface_destroyed) h)
    | inr (f, h) ↦ inr (
      f,
      _,
      h,
      ap (λ o. close_track_flow c.media o owning_surface_destroyed) h,
      refl,
      λ d. rw d refl,
    )
  ]

  retain_tracks_lem :
      (context_id surface_id : ℕ) (ts : List (TrackLocal c.media))
      → let (keep, gone, closed) = retain_tracks c context_id surface_id ts in
        (keep ≡ those_elsewhere context_id surface_id ts)
        × Takes (those_on context_id surface_id ts) gone closed
  unfolding retain_tracks
  retain_tracks_lem context_id surface_id [] = (refl, tt)
  retain_tracks_lem context_id surface_id (t ∷ ts) =
      let (same, takes) = retain_tracks_lem context_id surface_id ts in
      elim (Bool-cases (is_on c context_id surface_id t)) [
        | inl on ↦ rw on (same, (orphan-IsOrphan t, close_track_flow-IsShut t, takes))
        | inr off ↦ rw off (ap (λ ks. t ∷ ks) same, takes)
      ]

  -- What a destroyed surface leaves behind.
  pub record IsGone (s : SurfaceLocal c) (o : Owned c) (x : Destroyed c) : Type 0 where
    pub dead_surface : x.surface.destroyed ≡ true
    pub unregistered :
        holds_surface c x.owned.surfaces s.definition.context_id s.definition.surface_id ≡ false
    pub others_stay :
        x.owned.tracks ≡ those_elsewhere s.definition.context_id s.definition.surface_id o.tracks
    pub tracks_die :
        Takes (those_on s.definition.context_id s.definition.surface_id o.tracks) x.gone x.closed

  -- A destroy that succeeds leaves no surface of this identity in the registry, and exactly the tracks
  -- of other surfaces, as they were; each track of the surface is destroyed, without a flow and media,
  -- and the flow that it had is closed, as one of a destroyed surface unless it had a diagnostic.
  pub destroy_surface-IsGone :
      (s : SurfaceLocal c) (o : Owned c) (a : Acknowledge c)
      → (destroy_surface c s o a).1 ≡ ok tt
      → IsGone s o (destroy_surface c s o a).0
  unfolding destroy_surface
  destroy_surface-IsGone s o a e =
      let context_id = s.definition.context_id in
      let surface_id = s.definition.surface_id in
      let (keep, takes) = retain_tracks_lem context_id surface_id o.tracks in
      elim (Result-cases (lift (ensure_live_surface s.destroyed))) [
        | inr (x, h) ↦ absurd (ground arith)
        | inl (u, h) ↦
            elim (Result-cases (
              a (
                request_about c c.destroy_surface surface_id
                  (owner_pair c context_id surface_id)))) [
                    | inr (x, i) ↦ absurd (ground arith)
                    | inl (w, i) ↦
                        rw (h, destroy_surface, i)
                          record {
                            dead_surface = refl;
                            unregistered = remove_surface-holds o.surfaces context_id surface_id;
                            others_stay = keep;
                            tracks_die = takes;
                          }
                  ]
      ]
