-- ===== src/Tests/Clipboard.antt =====
-- src/clipboard.rs, at concrete inputs.
use wl_resprox.Prelude.{ℕ, ◌≡◌, List, [], ◌∷◌, some}
use wl_resprox.Wire.Words.{Bytes}
use wl_resprox.Relay.Splice.{cache_get}
use wl_resprox.Clipboard.{
  pump, turns_of, joined, read_error, write_error, pump-turns_of, pump_failed,
}

-- "ab" and "c", for the type "t".
abbrev chunks : List (ℕ × Bytes)
chunks = (97, 98 ∷ []) ∷ (99, []) ∷ []

abbrev mime : Bytes
mime = 116 ∷ []

pump-turns_of_example :
    ((pump mime (turns_of chunks []) []).0 ≡ 97 ∷ 98 ∷ 99 ∷ [])
    × (cache_get mime (pump mime (turns_of chunks []) []).1 ≡ some (97 ∷ 98 ∷ 99 ∷ []))
unfolding joined wl_resprox.Interfaces.bytes_eq
pump-turns_of_example = pump-turns_of mime mime chunks []

pump_failed_example :
    (pump mime (turns_of chunks (read_error ∷ [])) [] ≡ (97 ∷ 98 ∷ 99 ∷ [], []))
    × (pump mime (turns_of chunks (write_error (100 ∷ []) ∷ [])) [] ≡ (97 ∷ 98 ∷ 99 ∷ 100 ∷ [], []))
unfolding joined
pump_failed_example = pump_failed mime (100 ∷ []) chunks [] []
