-- ===== src/Output/Tests.antt =====
-- A text of one- and three-byte characters, cut inside a character.
use node_nexus_api.Prelude.{◌<◌, true, [], ◌∷◌, Text, length, ◌≡◌, refl, ◌↔◌}
use node_nexus_api.Output.{utf8, encode, decode, bound_output}
use node_nexus_api.Output.Cuts.{LongestStart, bound_output_lem}

abbrev prices : Text
prices = 97 ∷ 8364 ∷ 8364 ∷ []

cut-inside :
    bound_output prices 6 ≡ record { value = 97 ∷ 8364 ∷ []; original_bytes = 7; truncated = true }
unfolding bound_output encode utf8 decode
cut-inside = refl

bound_output_lem_example :
    LongestStart 6 prices (bound_output prices 6).value
    × ((bound_output prices 6).original_bytes ≡ length (encode prices))
    × (((bound_output prices 6).truncated ≡ true) ↔ (6 < length (encode prices)))
bound_output_lem_example = bound_output_lem prices 6
