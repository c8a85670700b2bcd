-- ===== src/Retrieval/Score.antt =====
-- The floating-point scores of backend/app/retrieval, which are IEEE doubles in the source: the
-- operations that the code uses on them, and the facts about these operations that proofs rest on.
-- No NaN arises: the code only adds reciprocals of positive numbers.
use know_gate.Prelude.{ℕ, ◌≤◌, ◌<◌, ◌≡◌, Bool, true, ◌⊎◌}

pub record Score (S : Type 0) : Type 0 where
  pub zero_score : S
  pub add : S → S → S
  -- `1.0 / n`
  pub recip : ℕ → S
  -- `a <= b`
  pub le : S → S → Bool

-- IEEE addition and division round monotonically, and comparison without NaN is a total order.
pub record IsOrdered {S : Type 0} (A : Score S) : Type 0 where
  pub le_trans : (a b c : S) → A.le a b ≡ true → A.le b c ≡ true → A.le a c ≡ true
  pub le_total : (a b : S) → (A.le a b ≡ true) ⊎ (A.le b a ≡ true)
  pub add_mono :
      (a b c d : S) → A.le a b ≡ true → A.le c d ≡ true → A.le (A.add a c) (A.add b d) ≡ true
  pub recip_anti : (m n : ℕ) → 0 < m → m ≤ n → A.le (A.recip n) (A.recip m) ≡ true
  pub recip_nonneg : (n : ℕ) → A.le A.zero_score (A.recip n) ≡ true
  pub zero-add : (a : S) → A.add A.zero_score a ≡ a
  pub add-zero : (a : S) → A.add a A.zero_score ≡ a
