-- ===== src/Json/Tests.antt =====
-- Outputs of a model, and the theorems about their repair at them. 34 is the double quote and 92
-- the backslash.
use shiori_server.Prelude.{ℕ, ◌≡◌, refl, ◌≢◌, Bool, true, false, some, none, List, [], ◌∷◌}
use shiori_server.Json.Repair.{
  mode_after, stack_after, outside, escaped, repair_truncated, strip_trailing_commas,
  extract_and_repair_json, from_brace, complete_object, next_visible,
}
use shiori_server.Json.Reading.{IsClosed}
use shiori_server.Json.Commas.{extract_truncated-IsClosed}

-- {"a
abbrev cut : List ℕ
cut = b'{' ∷ 34 ∷ b'a' ∷ []

-- {"\
abbrev cut_in_escape : List ℕ
cut_in_escape = b'{' ∷ 34 ∷ 92 ∷ []

cut_closed : repair_truncated cut ≡ b'{' ∷ 34 ∷ b'a' ∷ 34 ∷ b'}' ∷ []
unfolding repair_truncated mode_after stack_after
cut_closed = refl

cut_inside : mode_after outside cut ≢ escaped
unfolding mode_after
cut_inside e = cc

cut_escaped : mode_after outside cut_in_escape ≡ escaped
unfolding mode_after
cut_escaped = refl

-- [1,}
abbrev with_comma : List ℕ
with_comma = b'{' ∷ b'1' ∷ b',' ∷ 32 ∷ b'}' ∷ []

comma_gone : strip_trailing_commas with_comma ≡ (b'{' ∷ b'1' ∷ 32 ∷ b'}' ∷ [], true)
unfolding strip_trailing_commas next_visible
comma_gone = refl

-- x{}y
abbrev padded : List ℕ
padded = b'x' ∷ b'{' ∷ b'}' ∷ b'y' ∷ []

abbrev any_text : List ℕ → Bool
any_text s = true

padded_found : extract_and_repair_json any_text padded ≡ some (b'{' ∷ b'}' ∷ [], false)
unfolding extract_and_repair_json next_visible
padded_found = refl

cut_brace : from_brace cut ≡ some cut
unfolding from_brace
cut_brace = refl

cut_incomplete : complete_object outside 0 cut ≡ none
unfolding complete_object
cut_incomplete = refl

cut_found : extract_and_repair_json any_text cut ≡ some (b'{' ∷ 34 ∷ b'a' ∷ 34 ∷ b'}' ∷ [], true)
unfolding extract_and_repair_json mode_after stack_after next_visible
cut_found = refl

extract_truncated-IsClosed_example :
    IsClosed (b'{' ∷ 34 ∷ b'a' ∷ 34 ∷ b'}' ∷ []) × (◌≡◌ {A = Bool} true true)
extract_truncated-IsClosed_example =
    extract_truncated-IsClosed any_text cut cut (b'{' ∷ 34 ∷ b'a' ∷ 34 ∷ b'}' ∷ []) true cut_brace
      cut_incomplete cut_inside cut_found
