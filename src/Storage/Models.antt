-- ===== src/Storage/Models.antt =====
-- The tables of catchment/storage/models.py. A row stands under its primary key, or under the
-- unique key that its statements name; the timestamps kept are those that the code reads.
use catchment.Prelude.{ℕ, Option, List, Text, Table, find, is_some, Bool, nat_eq}
use catchment.Prelude.Json.{Fields, Float}
use catchment.Storage.Enums.{
  Source, ItemKind, Origin, TagStatus, ProposalKind, ProposalStatus, Stage, Outcome,
}

-- A confidence between 0.0 and 1.0, in units of 2 ^ -1074.
abbrev pub Confidence : Type 0
Confidence = ℕ

abbrev pub Vector : Type 0
Vector = List Float

pub record Item : Type 0 where
  pub source : Source
  pub source_id : Text
  pub kind : ItemKind
  pub url : Option Text
  pub title : Option Text
  pub author : Option Text
  pub published_at : Option ℕ
  pub raw_ref : Option Text
  pub meta : Fields

pub record Extraction : Type 0 where
  pub id : ℕ
  pub text : Text
  pub language : Option Text
  pub confidence : Option Float
  pub meta : Fields

pub record Embedding : Type 0 where
  pub id : ℕ
  pub model : Text
  pub dim : ℕ
  pub vector : Vector

pub record Tag : Type 0 where
  pub slug : Text
  pub label : Text
  pub description : Option Text
  pub origin : Origin
  pub status : TagStatus
  pub merged_into : Option ℕ

pub record ItemTag : Type 0 where
  pub confidence : Confidence
  pub assigned_by : Origin
  pub trace_id : Option Text

pub record PipelineFailure : Type 0 where
  pub item_id : ℕ
  pub stage : Stage
  pub error_type : Text
  pub detail : Option Text
  pub occurred_at : ℕ
  pub resolved_at : Option ℕ

pub record ConnectorHealth : Type 0 where
  pub last_success_at : Option ℕ
  pub last_attempt_at : ℕ
  pub last_outcome : Outcome
  pub detail : Option Text
  pub items_seen : ℕ
  pub items_created : ℕ

pub record TaxonomyProposal : Type 0 where
  pub kind : ProposalKind
  pub status : ProposalStatus
  pub payload : Fields
  pub rationale : Option Text
  pub proposed_by : Text
  pub created_at : ℕ
  pub reviewed_by : Option Text
  pub reviewed_at : Option ℕ
  pub applied_at : Option ℕ

-- An edge under (parent, child), with its relation; an assignment under (item, tag).
abbrev pub Edges : Type 0
Edges = Table (ℕ × ℕ) Text

abbrev pub ItemTags : Type 0
ItemTags = Table (ℕ × ℕ) ItemTag

-- The whole database, and the identifiers that `uuid.uuid4` returns: call number n gives `uuids n`,
-- and `draws` calls have been made.
pub record Store : Type 0 where
  pub uuids : ℕ → ℕ
  pub draws : ℕ
  pub items : Table ℕ Item
  pub extractions : Table (ℕ × Text) Extraction
  pub embeddings : Table ℕ Embedding
  pub tags : Table ℕ Tag
  pub edges : Edges
  pub item_tags : ItemTags
  pub failures : Table ℕ PipelineFailure
  pub health : Table Source ConnectorHealth
  pub proposals : Table ℕ TaxonomyProposal

-- The row is there, as a foreign key requires.
abbrev pub is_item : ℕ → Store → Bool
is_item k s = is_some (find k s.items)

abbrev pub is_tag : ℕ → Store → Bool
is_tag k s = is_some (find k s.tags)
