-- ===== src/Broker/ConnectionWriteState/Watermarks.antt =====
-- The watermarks of connection_write_state.rs.
use pulsar_lite.Prelude.{
  ℕ, Bool, true, false, ◌&&◌, ◌||◌, not, List, [], ◌∷◌, ◌≡◌, arith, leb, ltb, if◌then◌else◌, ◌∙◌,
}
use pulsar_lite.Broker.ConnectionWriteState.{ConnectionWriteState, observe_buffered_bytes}

abbrev pub observe_all : ConnectionWriteState → List ℕ → ConnectionWriteState
observe_all s [] = s
observe_all s (b ∷ bs) = observe_all (observe_buffered_bytes s b) bs

abbrev pub all_above : ℕ → List ℕ → Bool
all_above low [] = true
all_above low (b ∷ bs) = ltb low b && all_above low bs

-- Some observation is at the high watermark or above it, and all after it are above the low one.
unfoldable pub is_paused : ℕ → ℕ → List ℕ → Bool
is_paused high low [] = false
is_paused high low (b ∷ bs) = is_paused high low bs || (leb high b && all_above low bs)

one_observation :
    (high low b : ℕ) (w paused above : Bool)
    → not (paused || (not (if leb high b then false else if leb b low then true else w) && above))
      ≡ not ((paused || (leb high b && above)) || (not w && (ltb low b && above)))
one_observation high low b w paused above = ground arith

-- After any history of observations a connection is writable, unless some observation reached the
-- high watermark, or the connection was not writable before, and all later ones stayed above the
-- low watermark.
pub observe_all-is_paused :
    (s : ConnectionWriteState) (bs : List ℕ)
    → (observe_all s bs).writable
      ≡ not (
          is_paused s.high_watermark_bytes s.low_watermark_bytes bs
          || (not s.writable && all_above s.low_watermark_bytes bs))
unfolding observe_buffered_bytes is_paused
observe_all-is_paused s [] = ground arith
observe_all-is_paused s (b ∷ bs) =
    observe_all-is_paused (observe_buffered_bytes s b) bs
    ∙ one_observation s.high_watermark_bytes s.low_watermark_bytes b s.writable
        (is_paused s.high_watermark_bytes s.low_watermark_bytes bs)
        (all_above s.low_watermark_bytes bs)
