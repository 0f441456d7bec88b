-- ===== src/Mls/Engine.antt =====
-- The MLS library under src/mls.rs, which is not part of the repository: a record of its calls on
-- a state of its own, and the monad of the closures that the worker thread runs over it. A call
-- gives a value, refuses with an error, or panics.
use pacto_bot_api.Prelude.{String, Bool, true, false, Option, none, some, List, ◌==◌, string_eq}
use pacto_bot_api.Nostr.{PublicKey, Event, UnsignedEvent}
use pacto_bot_api.Errors.{MlsError, engine, crypto_error}

pub data Answer (E A : Type 0) : Type 0 where
  gives : A → Answer E A
  refuses : E → Answer E A
  panics : Answer E A

-- `mdk_core::Error`: the variants that are told apart.
pub data MdkError : Type 0 where
  group_not_found not_admin : MdkError
  crypto key_package welcome other : String → MdkError

-- `is_missing_encoding_tag`
unfoldable pub is_missing_encoding_tag : MdkError → Bool
is_missing_encoding_tag (key_package msg) = msg == "Missing required encoding tag"
is_missing_encoding_tag (welcome msg) = msg == "Missing required encoding tag"
is_missing_encoding_tag _ = false

abbrev unclassified : Bool → MlsError
unclassified true = MlsError.peer_version_mismatch
unclassified false = engine "MLS engine failure"

-- `impl From<mdk_core::Error> for MlsError`
unfoldable pub from_mdk_error : MdkError → MlsError
unfolding is_missing_encoding_tag
from_mdk_error MdkError.group_not_found = MlsError.group_not_found
from_mdk_error (crypto _) = crypto_error
from_mdk_error e = unclassified (is_missing_encoding_tag e)

-- A group of the library.
pub record MdkGroup : Type 0 where
  pub mls_group_id : String
  pub nostr_group_id : String
  pub name : String
  pub admin_pubkeys : List PublicKey

-- What a commit comes with.
pub record UpdateGroupResult : Type 0 where
  pub mls_group_id : String
  pub evolution_event : Event
  pub welcome_rumors : Option (List UnsignedEvent)

-- `NostrGroupConfigData`, without the picture's random bytes.
pub record GroupConfig : Type 0 where
  pub name : String
  pub relays : List String
  pub admins : List PublicKey

-- `MessageProcessingResult`; an application message is its rumor.
pub data MessageProcessingResult : Type 0 where
  application_message : String → UnsignedEvent → MessageProcessingResult
  proposal : UpdateGroupResult → MessageProcessingResult
  pending_proposal ignored_proposal external_join_proposal : MessageProcessingResult
  commit unprocessable previously_failed : MessageProcessingResult

abbrev pub MdkCall : Type 0 → Type 0 → Type 0
MdkCall S A = S → S × Answer MdkError A

-- The calls of the library that the worker makes, over its state `S`; the two that read leave it.
pub record Mdk (S : Type 0) : Type 0 where
  pub get_groups : S → Answer MdkError (List MdkGroup)
  pub get_members : String → S → Answer MdkError (List PublicKey)
  pub create_group :
      PublicKey → List Event → GroupConfig → MdkCall S (MdkGroup × List UnsignedEvent)
  pub add_members : String → List Event → MdkCall S UpdateGroupResult
  pub remove_members : String → List PublicKey → MdkCall S UpdateGroupResult
  pub update_admins : String → List PublicKey → MdkCall S UpdateGroupResult
  pub self_demote : String → MdkCall S UpdateGroupResult
  pub leave_group : String → MdkCall S UpdateGroupResult
  pub merge_pending_commit : String → MdkCall S (Unit {0})
  pub delete_group : String → MdkCall S (Unit {0})
  pub create_message : String → UnsignedEvent → MdkCall S Event
  pub process_message : Event → MdkCall S MessageProcessingResult

-- A closure of the worker.
abbrev pub Work : Type 0 → Type 0 → Type 0
Work S A = S → S × Answer MlsError A

abbrev pub resume :
    {S A B : Type 0} → S × Answer MlsError A → (A → Work S B) → S × Answer MlsError B
resume (s, gives a) rest = rest a s
resume (s, refuses e) rest = (s, refuses e)
resume (s, panics) rest = (s, panics)

infixl 5 ◌>>=◌ ◌>>◌
abbrev pub ◌>>=◌ : {S A B : Type 0} → Work S A → (A → Work S B) → Work S B
◌>>=◌ step rest s = resume (step s) rest

abbrev pub ◌>>◌ : {S B : Type 0} → Work S (Unit {0}) → Work S B → Work S B
◌>>◌ step rest s = resume (step s) (λ _. rest)

abbrev pub done : {S A : Type 0} → A → Work S A
done a s = (s, gives a)

abbrev pub refuse : {S A : Type 0} → MlsError → Work S A
refuse e s = (s, refuses e)

abbrev pub ok_or : {S A : Type 0} → Option A → MlsError → Work S A
ok_or none e s = (s, refuses e)
ok_or (some a) e s = (s, gives a)

-- The operator `?` on a call of the library.
abbrev pub from_mdk : {S A : Type 0} → S × Answer MdkError A → S × Answer MlsError A
from_mdk (s, gives a) = (s, gives a)
from_mdk (s, refuses e) = (s, refuses (from_mdk_error e))
from_mdk (s, panics) = (s, panics)

abbrev pub ask : {S A : Type 0} → MdkCall S A → Work S A
ask call s = from_mdk (call s)

abbrev pub ask_read : {S A : Type 0} → (S → Answer MdkError A) → Work S A
ask_read call s = from_mdk (s, call s)

-- `Result<A, MlsError>`
pub data MlsResult (A : Type 0) : Type 0 where
  ok : A → MlsResult A
  err : MlsError → MlsResult A

-- `catch_unwind(..).unwrap_or_else(..)`, around each closure.
abbrev pub catch_unwind : {S A : Type 0} → S × Answer MlsError A → S × MlsResult A
catch_unwind (s, gives a) = (s, ok a)
catch_unwind (s, refuses e) = (s, err e)
catch_unwind (s, panics) = (s, err (engine "MLS worker panic"))
