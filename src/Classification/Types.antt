-- ===== src/Classification/Types.antt =====
-- catchment/classification/types.py.
use catchment.Prelude.{Bool, List, Option, Text, leb, nat_eq, pair_eq, select, text_eq}
use catchment.Storage.Models.{Confidence}
use catchment.Storage.Session.{Result}
use catchment.Classification.Slug.{slugify}

pub record TagSuggestion : Type 0 where
  pub label : Text
  pub confidence : Confidence
  pub is_new : Bool
  pub description : Option Text
  pub broader_than : Option Text

-- `TagSuggestion.slug`.
unfoldable pub slug_of : (Text → Text) → TagSuggestion → Result Text
slug_of normalize s = slugify normalize s.label

pub record ClassificationResult : Type 0 where
  pub suggestions : List TagSuggestion
  pub model : Text
  pub trace_id : Option Text

-- `ClassificationResult.above`.
unfoldable pub above : Confidence → ClassificationResult → List TagSuggestion
above threshold result = select (λ s. leb threshold s.confidence) result.suggestions
