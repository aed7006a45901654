-- ===== src/Cdap/Roundtrip.antt =====
-- A CDAP message that is put on the wire and taken from it: prvRibdSerToRinaMessage and
-- prvRibdFillDecodeMessage in components/Ipcp/Modules/ribd.c.
use rinasensev.Prelude.{
  ℕ, ◌<◌, ◌≤◌, ◌≡◌, refl, lt→ltb, le→ltb, ◌==◌, Bool-cases, inl, inr, if◌then◌else◌, Option, none,
  some, length, ◌>>=◌, chain_began,
}
use rinasensev.Strings.{CString}
use rinasensev.Names.{Name}
use rinasensev.Gpha.{Bytes}
use rinasensev.Cdap

-- A string that is there fits with its terminator.
abbrev pub Fits : ℕ → Option CString → Type 0
Fits size none = Unit {0}
Fits size (some s) = length s < size

abbrev pub ValueFits : Option Bytes → Type 0
ValueFits none = Unit {0}
ValueFits (some bytes) = length bytes ≤ 1024

-- Both parts of the policy are there, or neither.
abbrev pub AuthFits : Option CString → Option CString → Type 0
AuthFits none none = Unit {0}
AuthFits (some name) (some version) = (length name < 40) × (length version < 40)
AuthFits _ _ = ⊥

pub record NameFits (n : Name) : Type 0 where
  pub process_name : Fits 20 n.process_name
  pub process_instance : Fits 20 n.process_instance
  pub entity_name : Fits 20 n.entity_name
  pub entity_instance : Fits 20 n.entity_instance

-- Every field fits its array.
pub record IsSendable (m : Cdap.Cdap) : Type 0 where
  pub destination : NameFits m.destination
  pub source : NameFits m.source
  pub auth : AuthFits m.auth_name m.auth_version
  pub obj_class : Fits 40 m.obj_class
  pub obj_name : Fits 40 m.obj_name
  pub obj_value : ValueFits m.obj_value

put-Fits : (size : ℕ) (o : Option CString) → Fits size o → Cdap.put size o ≡ some o
put-Fits size none h = refl
put-Fits size (some s) h = rw (lt→ltb (length s) size h) refl

put_value-ValueFits : (o : Option Bytes) → ValueFits o → Cdap.put_value o ≡ some o
put_value-ValueFits none h = refl
put_value-ValueFits (some bytes) h = rw (le→ltb 1024 (length bytes) h) refl

-- A field that is sent arrives; one that is not leaves what was there.
abbrev pub over {ℓ} : {A : Type ℓ} → Option A → Option A → Option A
over none held = held
over (some a) held = some a

or_held-over {ℓ} : {A : Type ℓ} (o held : Option A) → Cdap.or_held o held ≡ over o held
or_held-over none held = refl
or_held-over (some a) held = refl

put_auth-AuthFits :
    (name version : Option CString)
    → AuthFits name version
    → (w : Option Cdap.WireAuth) × (Cdap.put_auth name version ≡ some w)
      × ((held : Option CString) → Cdap.auth_name_of w held ≡ over name held)
      × ((held : Option CString) → Cdap.auth_version_of w held ≡ over version held)
put_auth-AuthFits none none h = (none, refl, (λ held. refl), (λ held. refl))
put_auth-AuthFits none (some version) h = absurd h
put_auth-AuthFits (some name) none h = absurd h
put_auth-AuthFits (some name) (some version) (hn, hv) = (
  some (record { name = some name; versions = version }),
  rw (lt→ltb (length name) 40 hn, lt→ltb (length version) 40 hv) refl,
  (λ held. refl),
  (λ held. refl),
)

or_zero-unless : (wrong n : ℕ) → Cdap.or_zero (Cdap.unless wrong n) ≡ (if n == wrong then 0 else n)
or_zero-unless wrong n = elim (Bool-cases (n == wrong)) [ inl e ↦ rw e refl | inr e ↦ rw e refl ]

number_or-unless :
    (wrong n held : ℕ)
    → Cdap.number_or (Cdap.unless wrong n) held ≡ (if n == wrong then held else n)
number_or-unless wrong n held = elim (Bool-cases (n == wrong)) [
  | inl e ↦ rw e refl
  | inr e ↦ rw e refl
]

-- The fields of a name that are not NULL, over those of another.
abbrev pub name_over : Name → Name → Name
name_over n held = record {
  process_name = over n.process_name held.process_name;
  process_instance = over n.process_instance held.process_instance;
  entity_name = over n.entity_name held.entity_name;
  entity_instance = over n.entity_instance held.entity_instance;
}

-- The fields of a message that are sent, over what the receiver's blocks held. A result of -1 is
-- not sent and arrives as 0, an instance of -1 is not sent.
pub message_over : Cdap.Cdap → Cdap.Cdap → Cdap.Cdap
message_over m held = record {
  op_code = m.op_code;
  version = m.version;
  invoke_id = m.invoke_id;
  result = if m.result == Cdap.minus_one_32 then 0 else m.result;
  destination = name_over m.destination held.destination;
  source = name_over m.source held.source;
  auth_name = over m.auth_name held.auth_name;
  auth_version = over m.auth_version held.auth_version;
  obj_class = over m.obj_class held.obj_class;
  obj_name = over m.obj_name held.obj_name;
  obj_inst = if m.obj_inst == Cdap.minus_one_64 then held.obj_inst else m.obj_inst;
  obj_value = over m.obj_value held.obj_value;
}

-- prvRibdSerToRinaMessage, and prvRibdFillDecodeMessage of the struct that it fills.
unfoldable pub transferred : Cdap.Cdap → Cdap.Cdap → Option Cdap.Cdap
transferred m held = do w ← Cdap.ser_to_rina_message m; some (Cdap.fill_decode_message w held)

-- A message whose fields fit the wire's arrays arrives with every field that was sent; a field that
-- was not sent holds what the receiver's memory held, but for a result of -1, which arrives as 0.
pub transferred_over :
    (m held : Cdap.Cdap) → IsSendable m → transferred m held ≡ some (message_over m held)
unfolding transferred message_over Cdap.ser_to_rina_message Cdap.fill_decode_message
transferred_over m held h =
    let (w, sent, name_kept, version_kept) = put_auth-AuthFits m.auth_name m.auth_version h.auth in
    rw
      (
        put-Fits 20 m.destination.entity_instance h.destination.entity_instance,
        put-Fits 20 m.destination.entity_name h.destination.entity_name,
        put-Fits 20 m.destination.process_instance h.destination.process_instance,
        put-Fits 20 m.destination.process_name h.destination.process_name,
        put-Fits 20 m.source.entity_instance h.source.entity_instance,
        put-Fits 20 m.source.entity_name h.source.entity_name,
        put-Fits 20 m.source.process_instance h.source.process_instance,
        put-Fits 20 m.source.process_name h.source.process_name,
        sent,
        put-Fits 40 m.obj_class h.obj_class,
        put-Fits 40 m.obj_name h.obj_name,
        put_value-ValueFits m.obj_value h.obj_value,
        or_zero-unless Cdap.minus_one_32 m.result,
        number_or-unless Cdap.minus_one_64 m.obj_inst held.obj_inst,
        name_kept held.auth_name,
        version_kept held.auth_version,
        or_held-over m.destination.process_name held.destination.process_name,
        or_held-over m.destination.process_instance held.destination.process_instance,
        or_held-over m.destination.entity_name held.destination.entity_name,
        or_held-over m.destination.entity_instance held.destination.entity_instance,
        or_held-over m.source.process_name held.source.process_name,
        or_held-over m.source.process_instance held.source.process_instance,
        or_held-over m.source.entity_name held.source.entity_name,
        or_held-over m.source.entity_instance held.source.entity_instance,
        or_held-over m.obj_class held.obj_class,
        or_held-over m.obj_name held.obj_name,
        or_held-over m.obj_value held.obj_value,
      )
      refl

-- A message whose fields fit has a struct on the wire.
pub IsSendable-ser_to_rina_message :
    (m : Cdap.Cdap) → IsSendable m → (w : Cdap.Wire) × (Cdap.ser_to_rina_message m ≡ some w)
unfolding transferred
IsSendable-ser_to_rina_message m h =
    chain_began (Cdap.ser_to_rina_message m) (λ w. some (Cdap.fill_decode_message w m))
      (message_over m m) (transferred_over m m h)
