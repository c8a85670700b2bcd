-- ===== src/Tests/Retrieval.antt =====
-- Runs of backend/app/retrieval, with scores in millionths.
use Prim.Native.Char.{code}
use native.Mathlib.Nat.{le-div_iff_mul-le, div-mul-le_self, mul-le-mul_left, le_trans}
use know_gate.Prelude.{
  le→leb, ℕ, ◌+◌, ◌-◌, ◌/◌, ◌≤◌, ◌<◌, ◌≡◌, refl, String, List, [], ◌∷◌, ◌++◌, arith, true, Option,
  none, some, leb, if◌then◌else◌, ◌&&◌,
}
use know_gate.Prelude.Dict.{has, Distinct, put, get}
use know_gate.Prelude.Sort.{sort_desc}
use know_gate.Retrieval.Score.{Score, IsOrdered}
use know_gate.Retrieval.HybridSearch.{
  SearchCandidate, Payload, unset, merge_rrf, merge_found, first_found,
}
use know_gate.Retrieval.HybridSearch.Order.{ids}
use know_gate.Retrieval.HybridSearch.Ranking.{IsRanking, merge_rrf-IsRanking}
use know_gate.Retrieval.CitationBuilder.{extract_citation_indices}
use know_gate.Retrieval.CitationBuilder.Tokens
use know_gate.Retrieval.CitationBuilder.Tokens.{extract-token}

abbrev pub millionths : Score ℕ
millionths = record { zero_score = 0; add = ◌+◌; recip = λ n. 1_000_000 / n; le = leb }

div-anti : (x m n : ℕ) → 0 < m → m ≤ n → x / n ≤ x / m
div-anti x m n h k =
    (le-div_iff_mul-le h).1 (le_trans (mul-le-mul_left (x / n) k) (div-mul-le_self x n))

recip_anti : (m n : ℕ) → 0 < m → m ≤ n → leb (1_000_000 / n) (1_000_000 / m) ≡ true
recip_anti m n h k = le→leb _ _ (div-anti 1_000_000 m n h k)

millionths-IsOrdered : IsOrdered millionths
millionths-IsOrdered = record {
  le_trans = λ a b c h k. ground arith;
  le_total = λ a b. ground arith;
  add_mono = λ a b c d h k. ground arith;
  recip_anti = recip_anti;
  recip_nonneg = λ n. ground arith;
  zero-add = λ a. omega arith;
  add-zero = λ a. omega arith;
}

abbrev no_payload : Payload
no_payload = record { source = none; source_id = none; status = none; indexed_at = none }

abbrev chunk : String → String → SearchCandidate ℕ
chunk id text = record {
  chunk_id = id;
  doc_id = "d";
  text = text;
  score = 0;
  retrieval_source = unset;
  payload = no_payload;
  section_title = none;
  page_number = none;
  language = none;
}

abbrev by_vector : List (SearchCandidate ℕ)
by_vector = chunk "c1" "" ∷ chunk "c2" "" ∷ []

abbrev by_keyword : List (SearchCandidate ℕ)
by_keyword = chunk "c2" "two" ∷ chunk "c3" "three" ∷ []

merged : Option (List String)
unfolding merge_rrf
merged = elim (merge_rrf millionths 60 20 by_vector by_keyword) [
  | none ↦ none
  | some out ↦ some (ids out)
]

merged_order : merged ≡ some ("c2" ∷ "c1" ∷ "c3" ∷ [])
unfolding merged merge_rrf put get sort_desc merge_found first_found
merged_order = refl

merge_rrf-IsRanking_example :
    (out : List (SearchCandidate ℕ)) × (merge_rrf millionths 60 2 by_vector by_keyword ≡ some out)
    × IsRanking millionths 60 2 by_vector by_keyword out
merge_rrf-IsRanking_example =
    merge_rrf-IsRanking millionths millionths-IsOrdered 60 2 by_vector by_keyword

vector-Distinct : Distinct (ids by_vector)
unfolding has
vector-Distinct = (refl, (refl, tt))

keyword-Distinct : Distinct (ids by_keyword)
unfolding has
keyword-Distinct = (refl, (refl, tt))

-- The ASCII digits.
abbrev digit : ℕ → Option ℕ
digit c = if leb b'0' c && leb c b'9' then some (c - b'0') else none

abbrev codes : String → List ℕ
codes String.[] = []
codes (String.◌∷◌ c s) = code c ∷ codes s

scan :
    extract_citation_indices digit (codes "Hanoi [2][1], see [x] [12[3] [2].") ≡ 2 ∷ 1 ∷ 3 ∷ 2 ∷ []
unfolding extract_citation_indices
scan = refl

extract-token_example :
    extract_citation_indices digit (codes "a [1" ++ b'[' ∷ (codes "42" ++ b']' ∷ codes " [7]"))
    ≡ extract_citation_indices digit (codes "a [1")
      ++ 42 ∷ extract_citation_indices digit (codes " [7]")
unfolding Tokens.decimal
extract-token_example =
    extract-token digit refl refl (codes "a [1") (codes "42") (codes " [7]") 42 refl (omega arith)

abbrev answer : List ℕ
answer = codes "Yes [2]."
