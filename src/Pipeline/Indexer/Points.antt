-- ===== src/Pipeline/Indexer/Points.antt =====
-- The points that `ingest_document` of backend/app/pipeline/indexer.py writes, and their groups.
use know_gate.Prelude.{◌≡◌, refl, String, ◌&&◌, List, [], ◌∷◌, str_eq, any, length, arith}
use know_gate.Db.{Document}
use know_gate.Pipeline.Chunker.{Chunk}
use know_gate.Pipeline.Indexer.{Services, PointStruct, get_group_ids, points_of}

-- The groups that a document is shared with, by the pairs of documents and groups.
abbrev pub GroupsOf : String → List (String × String) → List String → Type 0
GroupsOf doc_id pairs groups =
    (g : String) → any (λ h. str_eq h g) groups ≡ any (λ q. str_eq q.0 doc_id && str_eq q.1 g) pairs

pub get_group_ids-GroupsOf :
    (doc_id : String) (pairs : List (String × String))
    → GroupsOf doc_id pairs (get_group_ids doc_id pairs)
unfolding get_group_ids
get_group_ids-GroupsOf doc_id [] g = refl
get_group_ids-GroupsOf doc_id ((d, h) ∷ pairs) g =
    ground (arith, get_group_ids-GroupsOf doc_id pairs g)

module _ (sv : Services) (doc : Document) (groups : List String) where
  pub record IsPointOf (c : Chunk) (v : sv.Vector) (p : PointStruct sv.Vector) : Type 0 where
    pub id_lem : p.id ≡ sv.make_point_id doc.id c.chunk_index
    pub vector_lem : p.vector ≡ v
    pub groups_lem : p.group_ids ≡ groups
    pub document_lem : (p.doc_id ≡ doc.id) × (p.source ≡ doc.source) × (p.source_id ≡ doc.source_id)
    pub chunk_lem : (p.chunk_index ≡ c.chunk_index) × (p.section_title ≡ c.section_title)
    pub language_lem : p.language ≡ sv.detect_language c.text

  -- One point for each chunk and its vector, in order.
  abbrev pub PointsOf : List Chunk → List sv.Vector → List (PointStruct sv.Vector) → Type 0
  PointsOf [] [] [] = Unit
  PointsOf (c ∷ cs) (v ∷ vs) (p ∷ ps) = IsPointOf c v p × PointsOf cs vs ps
  PointsOf _ _ _ = ⊥

  pub points_of-PointsOf :
      (cs : List Chunk) (vs : List sv.Vector)
      → length vs ≡ length cs
      → PointsOf cs vs (points_of sv doc groups cs vs)
  unfolding points_of
  points_of-PointsOf [] [] h = tt
  points_of-PointsOf [] (v ∷ vs) h = absurd (omega (arith, h))
  points_of-PointsOf (c ∷ cs) [] h = absurd (omega (arith, h))
  points_of-PointsOf (c ∷ cs) (v ∷ vs) h = (
    record {
      id_lem = refl;
      vector_lem = refl;
      groups_lem = refl;
      document_lem = (refl, refl, refl);
      chunk_lem = (refl, refl);
      language_lem = refl;
    },
    points_of-PointsOf cs vs (omega (arith, h)),
  )
