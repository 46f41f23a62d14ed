-- ===== src/Track/Conditions.antt =====
-- The conditions of a bounded wait of src/track.rs, `TrackWaitCondition`.
use vivid_sdk.Prelude.{
  ℕ, ◌≡◌, refl, sym, ap, ◌≢◌, ◌↔◌, Bool, true, false, not, ◌&&◌, ◌||◌, Option, none, some, arith,
  ◌==◌, if◌then◌else◌, Result, ok, err,
}
use mathlib.Core.Path.{subst}
use vivid_sdk.Session.{Error, invalid_input}
use vivid_sdk.Track.{bits_outside, is_some}

pub data TrackWaitCondition : Type 0 where
  revision_greater milestone_set raster_frame_presented video_pts_presented playback_started
        playback_ended channel_accepted channel_closed track_lost :
      TrackWaitCondition

-- `condition as u64`.
unfoldable pub condition_number : TrackWaitCondition → ℕ
condition_number revision_greater = 1
condition_number milestone_set = 2
condition_number raster_frame_presented = 3
condition_number video_pts_presented = 4
condition_number playback_started = 5
condition_number playback_ended = 6
condition_number channel_accepted = 7
condition_number channel_closed = 8
condition_number track_lost = 9

unfoldable pub try_from : ℕ → Result Error TrackWaitCondition
try_from n =
    if n == 1
    then ok revision_greater
    else if n == 2
    then ok milestone_set
    else if n == 3
    then ok raster_frame_presented
    else if n == 4
    then ok video_pts_presented
    else if n == 5
    then ok playback_started
    else if n == 6
    then ok playback_ended
    else if n == 7
    then ok channel_accepted
    else if n == 8
    then ok channel_closed
    else if n == 9
    then ok track_lost
    else err invalid_input

-- The two patterns of conditions that take a value and that take none.
unfoldable pub takes_value : TrackWaitCondition → Bool
takes_value revision_greater = true
takes_value milestone_set = true
takes_value raster_frame_presented = true
takes_value video_pts_presented = true
takes_value c = false

abbrev pub is_milestone_set : TrackWaitCondition → Bool
is_milestone_set milestone_set = true
is_milestone_set c = false

-- `MILESTONE_KNOWN_MASK` is `mask`.
abbrev pub bad_mask : ℕ → Option ℕ → Bool
bad_mask mask none = false
bad_mask mask (some value) = value == 0 || not (bits_outside mask value == 0)

unfoldable pub validate_value : ℕ → TrackWaitCondition → Option ℕ → Result Error (Unit {0})
validate_value mask c value =
    if takes_value c && not (is_some value)
    then err invalid_input
    else if not (takes_value c) && is_some value
    then err invalid_input
    else if is_milestone_set c && bad_mask mask value
    then err invalid_input
    else ok tt

try_from-condition_number : (c : TrackWaitCondition) → try_from (condition_number c) ≡ ok c
unfolding try_from condition_number
try_from-condition_number revision_greater = refl
try_from-condition_number milestone_set = refl
try_from-condition_number raster_frame_presented = refl
try_from-condition_number video_pts_presented = refl
try_from-condition_number playback_started = refl
try_from-condition_number playback_ended = refl
try_from-condition_number channel_accepted = refl
try_from-condition_number channel_closed = refl
try_from-condition_number track_lost = refl

condition_number-try_from :
    (n : ℕ) (c : TrackWaitCondition) → try_from n ≡ ok c → n ≡ condition_number c
unfolding try_from condition_number
condition_number-try_from n revision_greater e = ground arith
condition_number-try_from n milestone_set e = ground arith
condition_number-try_from n raster_frame_presented e = ground arith
condition_number-try_from n video_pts_presented e = ground arith
condition_number-try_from n playback_started e = ground arith
condition_number-try_from n playback_ended e = ground arith
condition_number-try_from n channel_accepted e = ground arith
condition_number-try_from n channel_closed e = ground arith
condition_number-try_from n track_lost e = ground arith

-- A number reads as a condition exactly when it is the condition's number: reading what was written
-- gives the condition back, and no other number reads as it.
pub try_from-roundtrip :
    (n : ℕ) (c : TrackWaitCondition) → (try_from n ≡ ok c) ↔ (n ≡ condition_number c)
try_from-roundtrip n c = (
  condition_number-try_from n c,
  λ e. subst (λ x. try_from x ≡ ok c) (sym e) (try_from-condition_number c),
)

-- The value that goes with a condition: for the first four one, for the milestones a mask that is not
-- empty and has known bits only, for the others none.
pub data Fits (mask : ℕ) : TrackWaitCondition → Option ℕ → Type 0 where
  fits_none : (c : TrackWaitCondition) → takes_value c ≡ false → Fits mask c none
  fits_some :
      (c : TrackWaitCondition) (n : ℕ)
      → takes_value c ≡ true
      → (c ≡ milestone_set → (n ≢ 0) × (bits_outside mask n ≡ 0))
      → Fits mask c (some n)

validate_value-Fits :
    (mask : ℕ) (c : TrackWaitCondition) (value : Option ℕ)
    → validate_value mask c value ≡ ok tt
    → Fits mask c value
unfolding validate_value
validate_value-Fits mask c none e = fits_none c (ground arith)
validate_value-Fits mask c (some n) e =
    fits_some c n (ground arith) (λ same. go (ap is_milestone_set same))
  where
    go : is_milestone_set c ≡ true → (n ≢ 0) × (bits_outside mask n ≡ 0)
    go at = ground arith

Fits-validate_value :
    (mask : ℕ) (c : TrackWaitCondition) (value : Option ℕ)
    → Fits mask c value
    → validate_value mask c value ≡ ok tt
unfolding validate_value takes_value
Fits-validate_value mask _ _ (fits_none c t) = ground arith
Fits-validate_value mask _ _ (fits_some revision_greater n t h) = ground arith
Fits-validate_value mask _ _ (fits_some milestone_set n t h) = let (a, b) = h refl in ground arith
Fits-validate_value mask _ _ (fits_some raster_frame_presented n t h) = ground arith
Fits-validate_value mask _ _ (fits_some video_pts_presented n t h) = ground arith
Fits-validate_value mask _ _ (fits_some playback_started n t h) = ground arith
Fits-validate_value mask _ _ (fits_some playback_ended n t h) = ground arith
Fits-validate_value mask _ _ (fits_some channel_accepted n t h) = ground arith
Fits-validate_value mask _ _ (fits_some channel_closed n t h) = ground arith
Fits-validate_value mask _ _ (fits_some track_lost n t h) = ground arith

-- The value of a wait is accepted exactly when it fits the condition.
pub validate_value-ok_iff :
    (mask : ℕ) (c : TrackWaitCondition) (value : Option ℕ)
    → (validate_value mask c value ≡ ok tt) ↔ Fits mask c value
validate_value-ok_iff mask c value =
    (validate_value-Fits mask c value, Fits-validate_value mask c value)
