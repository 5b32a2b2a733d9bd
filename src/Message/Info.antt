-- ===== src/Message/Info.antt =====
-- The part of models/models.go that the store and the builder of threads read: the data of a message,
-- and what it says of its id and of the messages it answers. An object that the code only hands on (a
-- body structure) is its address.
use aerc.Prelude.{
  ℕ, Bool, ◌||◌, Option, none, some, List, [], ◌∷◌, String, string_eq, eqb, ◌==◌, if◌then◌else◌,
}
use aerc.Prelude.Int.{ℤ}
use aerc.Message.Builder.{Header}

-- The bits of `Flags`.
pub record Flags : Type 0 where
  pub seen : Bool
  pub recent : Bool
  pub answered : Bool
  pub forwarded : Bool
  pub deleted : Bool
  pub flagged : Bool
  pub draft : Bool

abbrev pub or_flags : Flags → Flags → Flags
or_flags f g = record {
  seen = f.seen || g.seen;
  recent = f.recent || g.recent;
  answered = f.answered || g.answered;
  forwarded = f.forwarded || g.forwarded;
  deleted = f.deleted || g.deleted;
  flagged = f.flagged || g.flagged;
  draft = f.draft || g.draft;
}

pub record Envelope : Type 0 where
  pub message_id : String
  pub in_reply_to : String
  pub subject : String

-- The ids that lib/parse finds in the two header fields.
pub record MailHeader : Type 0 where
  pub in_reply_to_ids : List String
  pub references_ids : List String

-- A nil pointer, error, slice of `Refs` or index is `none`, and the zero of a date is 0.
pub record MessageInfo : Type 0 where
  pub body_structure : Option ℕ
  pub envelope : Option Envelope
  pub flags : Flags
  pub directory : String
  pub labels : List String
  pub internal_date : ℕ
  pub rfc822_headers : Option MailHeader
  pub refs : Option (List String)
  pub size : ℕ
  pub uid : String
  pub index : Option ℤ
  pub error : Option String

unfoldable pub msg_id : MessageInfo → Option String
msg_id mi = elim mi.envelope [ none ↦ none | some e ↦ some e.message_id ]

abbrev first_of : List String → Option String
first_of [] = none
first_of (x ∷ xs) = some x

abbrev all_of : List String → Option (List String)
all_of [] = none
all_of (x ∷ xs) = some (x ∷ xs)

abbrev reply_in_headers : Option MailHeader → Option String
reply_in_headers none = none
reply_in_headers (some h) = first_of h.in_reply_to_ids

unfoldable pub in_reply_to : MessageInfo → Option String
in_reply_to mi = elim mi.envelope [
  | none ↦ reply_in_headers mi.rfc822_headers
  | some e ↦ if eqb e.in_reply_to "" then reply_in_headers mi.rfc822_headers else some e.in_reply_to
]

unfoldable pub references : MessageInfo → Option (List String)
references mi = elim mi.refs [
  | some r ↦ some r
  | none ↦ elim mi.rfc822_headers [ none ↦ none | some h ↦ all_of h.references_ids ]
]

-- What the builder of threads reads.
unfoldable pub header_of : MessageInfo → Header
unfolding msg_id in_reply_to references
header_of mi = record {
  uid = mi.uid;
  msg_id = msg_id mi;
  in_reply_to = in_reply_to mi;
  references = references mi;
  subject = elim mi.envelope [ none ↦ none | some e ↦ some e.subject ];
}

abbrev or_else {ℓ} : {A : Type ℓ} → Option A → Option A → Option A
or_else none b = b
or_else (some a) b = some a

-- lib/msgstore.go merges what was received into what was known.
unfoldable pub merge : MessageInfo → MessageInfo → MessageInfo
merge to from = record to {
  body_structure = or_else from.body_structure to.body_structure;
  envelope = or_else from.envelope to.envelope;
  labels = from.labels;
  error = from.error;
  rfc822_headers = or_else from.rfc822_headers to.rfc822_headers;
  size = if from.size == 0 then to.size else from.size;
  internal_date = if from.internal_date == 0 then to.internal_date else from.internal_date;
}
