-- ===== src/Ingestion/Mail/Poll.antt =====
-- catchment/ingestion/email_imap.py: `ImapConnector`, one poll of a folder.
use catchment.Prelude.{
  Bool, List, Option, Text, [], false, length, nat_eq, none, pair_eq, some, suc, text_eq, true,
  zero, ℕ, ◌-◌, ◌∷◌,
}
use catchment.Storage.Session.{
  Error, Result, imap4_error, imap_error, ok, os_error, raise, type_error, value_error,
}
use catchment.Ingestion.{RawRecord}
use catchment.Ingestion.Values.{map_ok}
use catchment.Ingestion.Mail.{Decoders, Message, and_then, to_raw_record}

-- What the server answers: whether the connection opens; each command by what it raises or whether
-- its status is OK; the ids of a search, none where the answer carries no data; a fetch by the parts
-- of its answer, each with its bytes if it has some; and `message_from_bytes`.
pub record Server : Type 0 where
  pub credentials : Result (Unit {0})
  pub connect : Result (Unit {0})
  pub login : Result (Unit {0})
  pub select : Result Bool
  pub search : Result (Bool × Option (List Text))
  pub fetch : Text → Result (Bool × List (Option (List ℕ)))
  pub logout : Result (Unit {0})
  pub message_from_bytes : List ℕ → Message

-- `except (OSError, imaplib.IMAP4.error)`, and `except imaplib.IMAP4.error`.
abbrev pub unreachable : Error → Error
unreachable os_error = imap_error
unreachable imap4_error = imap_error
unreachable e = e

abbrev pub refused : Error → Error
refused imap4_error = imap_error
refused e = e

abbrev pub raised_as : {A : Type 0} → (Error → Error) → Result A → Result A
raised_as f (ok a) = ok a
raised_as f (raise e) = raise (f e)

abbrev pub require : Bool → Result (Unit {0})
require true = ok tt
require false = raise imap_error

abbrev pub found_uids : Bool × Option (List Text) → Result (List Text)
found_uids (true, some uids) = ok uids
found_uids _ = raise imap_error

-- `_search`.
unfoldable pub search_uids : Server → Result (List Text)
search_uids v =
    and_then (raised_as refused v.select)
      (λ status. and_then (require status) (λ u. and_then (raised_as refused v.search) found_uids))

-- `_message_bytes`.
unfoldable pub message_bytes : List (Option (List ℕ)) → Result (List ℕ)
message_bytes [] = raise imap_error
message_bytes (none ∷ parts) = message_bytes parts
message_bytes (some bytes ∷ parts) = ok bytes

unfoldable pub skip_first : ℕ → List Text → List Text
skip_first zero uids = uids
skip_first (suc n) [] = []
skip_first (suc n) (uid ∷ uids) = skip_first n uids

module _ (d : Decoders) (v : Server) (folder : Text) where
  abbrev pub read_answer : Text → Bool × List (Option (List ℕ)) → Result RawRecord
  read_answer uid (false, parts) = raise imap_error
  read_answer uid (true, parts) =
      and_then (message_bytes parts)
        (λ bytes. to_raw_record d (v.message_from_bytes bytes) folder uid)

  unfoldable pub read_one : Text → Result RawRecord
  read_one uid = and_then (v.fetch uid) (read_answer uid)

  -- `except (imaplib.IMAP4.error, ImapError, ValueError, TypeError)`.
  abbrev pub or_skipped : Result RawRecord → Result (Option RawRecord)
  or_skipped (ok r) = ok (some r)
  or_skipped (raise imap4_error) = ok none
  or_skipped (raise imap_error) = ok none
  or_skipped (raise value_error) = ok none
  or_skipped (raise type_error) = ok none
  or_skipped (raise e) = raise e

  unfoldable pub fetch_one : Text → Result (Option RawRecord)
  fetch_one uid = or_skipped (read_one uid)

  abbrev pub with_read : Option RawRecord → List RawRecord → List RawRecord
  with_read none rs = rs
  with_read (some r) rs = r ∷ rs

  abbrev pub then_read :
      Result (Option RawRecord) → Result (List RawRecord) → Result (List RawRecord)
  then_read (ok r) rest = map_ok (with_read r) rest
  then_read (raise e) rest = raise e

  unfoldable pub fetch_all : List Text → Result (List RawRecord)
  fetch_all [] = ok []
  fetch_all (uid ∷ uids) = then_read (fetch_one uid) (fetch_all uids)

  -- `uids[-batch_size:]` of a batch size that is not 0.
  abbrev pub last_of : ℕ → List Text → List Text
  last_of batch_size uids = skip_first (length uids - batch_size) uids

  -- The body of the `try`.
  unfoldable pub read_folder : ℕ → Result (List RawRecord)
  read_folder batch_size =
      and_then (raised_as refused v.login)
        (λ u. and_then (search_uids v) (λ uids. fetch_all (last_of batch_size uids)))

  -- `finally: self._logout(connection)`: what a logout raises, but for what it tolerates, takes the
  -- place of the result.
  abbrev pub logged_out : Result (Unit {0}) → Result (List RawRecord) → Result (List RawRecord)
  logged_out (ok u) r = r
  logged_out (raise os_error) r = r
  logged_out (raise imap4_error) r = r
  logged_out (raise e) r = raise e

  unfoldable pub fetch_mail : ℕ → Result (List RawRecord)
  fetch_mail batch_size = and_then v.credentials (λ u.
      and_then (raised_as unreachable v.connect)
        (λ w. logged_out v.logout (read_folder batch_size)))
