-- ===== src/Storage/Enums.antt =====
-- The closed sets of words of catchment/storage/models.py that the check constraints name.
use catchment.Prelude.{ℕ, ◌≡◌, ◌↔◌, Bool, true, false, arith, Eq, nat_beq}

pub data Source : Type 0 where
  whatsapp x_bookmarks substack email : Source

pub data ItemKind : Type 0 where
  text link article image audio video : ItemKind

pub data Origin : Type 0 where
  llm human import : Origin

pub data TagStatus : Type 0 where
  active merged retired : TagStatus

pub data ProposalKind : Type 0 where
  merge split : ProposalKind

pub data ProposalStatus : Type 0 where
  pending approved rejected applied : ProposalStatus

-- The stages that the pipeline names; the constraint on the table admits the first three.
pub data Stage : Type 0 where
  extraction embedding classification media_fetch article_extraction : Stage

pub data Outcome : Type 0 where
  success failure : Outcome

-- `ck_failures_stage`.
abbrev pub is_pipeline_stage : Stage → Bool
is_pipeline_stage extraction = true
is_pipeline_stage embedding = true
is_pipeline_stage classification = true
is_pipeline_stage _ = false

abbrev pub is_active : TagStatus → Bool
is_active active = true
is_active _ = false

abbrev pub is_pending : ProposalStatus → Bool
is_pending pending = true
is_pending _ = false

abbrev pub is_approved : ProposalStatus → Bool
is_approved approved = true
is_approved _ = false

abbrev source_index : Source → ℕ
source_index whatsapp = 0
source_index x_bookmarks = 1
source_index substack = 2
source_index email = 3

abbrev pub source_beq : Source → Source → Bool
source_beq a b = nat_beq (source_index a) (source_index b)

pub source_beq_iff : (a b : Source) → (source_beq a b ≡ true) ↔ (a ≡ b)
source_beq_iff a b = ground arith

instance abbrev pub source_eq : Eq Source
source_eq = record { same = source_beq; beq_iff = source_beq_iff }
