-- ===== src/EventStore/Arrivals/Readable.antt =====
-- An event that `parseEnvelope` accepted is read again from the JSON text it is written to.
use datha_platform.Base.{
  String, true, false, Option, none, some, is_none, ◌≡◌, refl, ap, arith, Bool-cases, inl, inr,
  ◌==◌, Option-cases, subst,
}
use datha_platform.Base.Iso.{IsoDate}
use datha_platform.Base.Json.{Json, Members, null, boolean, number, string, array, object, get}
use datha_platform.Messenger.Envelope.{
  PlatformEvent, Checked, EnvelopeError, bad_payload, valid, invalid, ◌>>=◌, is_uuid,
  nonempty_string, required, uuid_or_null, iso_or_null, fields_of, members_or_null,
  parse_nullable_string, parse_envelope,
}
use datha_platform.EventStore.Arrivals.{envelope_json, json_or_null}

-- What `parseEnvelope` has checked of the event that it returns.
pub record IsEnvelope (iso : IsoDate) (e : PlatformEvent) : Type 0 where
  pub id : is_uuid e.id ≡ true
  pub type : (e.type == "") ≡ false
  pub service : (e.service == "") ≡ false
  pub timestamp : is_none (iso.parse e.timestamp) ≡ false

-- A property of the result, if there is one.
abbrev Holds : {A : Type 0} → (A → Type 0) → Checked A → Type 0
Holds P (invalid e) = Unit
Holds P (valid a) = P a

bind-Holds :
    {A B : Type 0} (P : B → Type 0) (first : Checked A) (rest : A → Checked B)
    → ((a : A) → first ≡ valid a → Holds P (rest a))
    → Holds P (first >>= rest)
bind-Holds P (invalid e) rest f = tt
bind-Holds P (valid a) rest f = f a refl

required-uuid :
    (o : Option Json) (e : EnvelopeError) (i : String)
    → required (uuid_or_null o) e ≡ valid i
    → is_uuid i ≡ true
required-uuid none e i h = cc
required-uuid (some (string s)) e i h = elim (Bool-cases (is_uuid s)) [
  | inl f ↦ ground (arith, f)
  | inr f ↦ ground (arith, f)
]
required-uuid (some null) e i h = cc
required-uuid (some (boolean b)) e i h = cc
required-uuid (some (number n)) e i h = cc
required-uuid (some (array xs)) e i h = cc
required-uuid (some (object m)) e i h = cc

required-nonempty :
    (o : Option Json) (e : EnvelopeError) (i : String)
    → required (nonempty_string o) e ≡ valid i
    → (i == "") ≡ false
required-nonempty none e i h = cc
required-nonempty (some (string s)) e i h = ground (arith, Bool-cases (s == ""))
required-nonempty (some null) e i h = cc
required-nonempty (some (boolean b)) e i h = cc
required-nonempty (some (number n)) e i h = cc
required-nonempty (some (array xs)) e i h = cc
required-nonempty (some (object m)) e i h = cc

parse_nullable_string-json_or_null :
    (o : Option String) → parse_nullable_string (some (json_or_null o)) ≡ valid o
unfolding parse_nullable_string
parse_nullable_string-json_or_null none = refl
parse_nullable_string-json_or_null (some s) = refl

module _ (iso : IsoDate) where
  required-iso :
      (o : Option Json) (e : EnvelopeError) (i : String)
      → required (iso_or_null iso o) e ≡ valid i
      → is_none (iso.parse i) ≡ false
  required-iso none e i h = cc
  required-iso (some (string s)) e i h = ground (arith, Option-cases (iso.parse s), ap iso.parse)
  required-iso (some null) e i h = cc
  required-iso (some (boolean b)) e i h = cc
  required-iso (some (number n)) e i h = cc
  required-iso (some (array xs)) e i h = cc
  required-iso (some (object m)) e i h = cc

  -- The last check, of the payload.
  read :
      (payload : Option Members) (id type service timestamp : String)
      (entity owner correlation : Option String)
      → is_uuid id ≡ true
      → (type == "") ≡ false
      → (service == "") ≡ false
      → is_none (iso.parse timestamp) ≡ false
      → Holds (IsEnvelope iso) (elim payload [
        | none ↦ invalid bad_payload
        | some p ↦ valid (record {
          id = id;
          type = type;
          service = service;
          entity_id = entity;
          owner_id = owner;
          correlation_id = correlation;
          timestamp = timestamp;
          payload = p;
        })
      ])
  read none id type service timestamp entity owner correlation a b c d = tt
  read (some p) id type service timestamp entity owner correlation a b c d = record {
    id = a;
    type = b;
    service = c;
    timestamp = d;
  }

  parse_envelope-Holds : (raw : Option Json) → Holds (IsEnvelope iso) (parse_envelope iso raw)
  unfolding parse_envelope
  parse_envelope-Holds none = tt
  parse_envelope-Holds (some raw) = bind-Holds (IsEnvelope iso) (fields_of raw) _ (λ fields _.
      bind-Holds (IsEnvelope iso) (required (uuid_or_null (get "id" fields)) _) _ (λ id id_ok.
        bind-Holds (IsEnvelope iso) (required (nonempty_string (get "type" fields)) _) _
          (λ type type_ok.
            bind-Holds (IsEnvelope iso) (required (nonempty_string (get "service" fields)) _) _
              (λ service service_ok.
                bind-Holds (IsEnvelope iso) (parse_nullable_string (get "entity_id" fields)) _
                  (λ entity _.
                    bind-Holds (IsEnvelope iso) (parse_nullable_string (get "owner_id" fields)) _
                      (λ owner _.
                        bind-Holds (IsEnvelope iso)
                          (parse_nullable_string (get "correlation_id" fields)) _
                          (λ correlation _.
                            bind-Holds (IsEnvelope iso)
                              (required (iso_or_null iso (get "timestamp" fields)) _) _
                              (λ timestamp timestamp_ok.
                                read (members_or_null (get "payload" fields)) id type service
                                  timestamp entity owner correlation
                                  (required-uuid (get "id" fields) _ id id_ok)
                                  (required-nonempty (get "type" fields) _ type type_ok)
                                  (required-nonempty (get "service" fields) _ service service_ok)
                                  (required-iso (get "timestamp" fields) _ timestamp
                                    timestamp_ok)))))))))

  parse_envelope-IsEnvelope :
      (raw : Option Json) (e : PlatformEvent) → parse_envelope iso raw ≡ valid e → IsEnvelope iso e
  parse_envelope-IsEnvelope raw e h = subst (Holds (IsEnvelope iso)) h (parse_envelope-Holds raw)

  -- An event that was read from a message, written out and read again, is the same.
  pub parse_envelope-envelope_json :
      (raw : Option Json) (e : PlatformEvent)
      → parse_envelope iso raw ≡ valid e
      → parse_envelope iso (some (envelope_json e)) ≡ valid e
  unfolding parse_envelope envelope_json get
  parse_envelope-envelope_json raw e h =
      let checked = parse_envelope-IsEnvelope raw e h in
      rw
        (
          checked.id,
          checked.type,
          checked.service,
          checked.timestamp,
          parse_nullable_string-json_or_null e.entity_id,
          parse_nullable_string-json_or_null e.owner_id,
          parse_nullable_string-json_or_null e.correlation_id,
        )
        refl
