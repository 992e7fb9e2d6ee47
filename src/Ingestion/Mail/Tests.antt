-- ===== src/Ingestion/Mail/Tests.antt =====
-- A folder with three messages, of which the second cannot be read.
use catchment.Prelude.{
  Bool, List, Option, Text, [], arith, false, if◌then◌else◌, nat_eq, none, pair_eq, some, text_beq,
  text_eq, true, ℕ, ◌↔◌, ◌∷◌, ◌≡◌,
}
use catchment.Prelude.Strip.{codes}
use catchment.Storage.Session.{Result, ok, raise, value_error}
use catchment.Ingestion.{RawRecord}
use catchment.Ingestion.Mail.{Decoders, Message, plain, to_raw_record}
use catchment.Ingestion.Mail.Poll.{Server, fetch_mail}
use catchment.Ingestion.Mail.Polled.{IsPolled, fetch_mail-exact}

abbrev bare : Message
bare = record { header = λ name. none; is_multipart = false; dispositions = [] }

abbrev ascii : Decoders
ascii = record {
  decode_header = λ t. ok (plain t ∷ []);
  decode = λ charset bytes. ok (some bytes);
  decode_replace = λ bytes. bytes;
  parseaddr = λ t. ([], t);
  parse_rfc = λ t. raise value_error;
  lower = λ t. t;
  sha256 = λ t. codes "0";
}

abbrev answer : Text → Result (Bool × List (Option (List ℕ)))
answer uid =
    if text_beq uid (codes "2") then ok (false, []) else ok (true, none ∷ some (codes "x") ∷ [])

abbrev inbox : Server
inbox = record {
  credentials = ok tt;
  connect = ok tt;
  login = ok tt;
  select = ok true;
  search = ok (true, some (codes "1" ∷ codes "2" ∷ codes "3" ∷ []));
  fetch = answer;
  logout = ok tt;
  message_from_bytes = λ bytes. bare;
}

abbrev made : Result RawRecord → List RawRecord
made (ok r) = r ∷ []
made (raise e) = []

-- The message with that id, which carries nothing but its body.
abbrev given : Text → List RawRecord
given uid = made (to_raw_record ascii bare (codes "INBOX") uid)

fetch_mail-exact_example :
    (fetch_mail ascii inbox (codes "INBOX") 2 ≡ ok (given (codes "3")))
    ↔ IsPolled ascii inbox (codes "INBOX") 2 (given (codes "3"))
fetch_mail-exact_example =
    fetch_mail-exact ascii inbox (codes "INBOX") 2 (given (codes "3")) (omega arith)
