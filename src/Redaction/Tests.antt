-- ===== src/Redaction/Tests.antt =====
-- A record with a token, a text and a count.
use catchment.Prelude.{[], false, nat_eq, pair_eq, text_eq}
use catchment.Prelude.Json.{Fields, Json, end, field, int, obj, str}
use catchment.Prelude.Strip.{codes}
use catchment.Redaction.{Texts}

abbrev plain_texts : Texts
plain_texts = record { lower = λ t. t; repr = λ j. []; decimal = λ n. []; sha256 = λ t. codes "0" }

abbrev logged : Fields
logged =
    field (codes "inner")
      (obj (field (codes "token") (str (codes "t0")) (field (codes "text") (str (codes "hi")) end)))
      (field (codes "bytes") (int false 2) end)
