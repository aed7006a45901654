-- ===== src/Ribd/Transfer.antt =====
-- A message from prvRibdEncodeCDAP to xRibdProcessLayerManagementPDU in
-- components/Ipcp/Modules/ribd.c.
use rinasensev.Prelude.{
  ℕ, ◌≡◌, refl, sym, ◌∙◌, Bool, true, Bool-cases, Option-cases, inl, inr, Option, none, some, ◌>>=◌,
}
use rinasensev.Gpha.{Bytes}
use rinasensev.Cdap.{Cdap, Wire, ser_to_rina_message, fill_decode_message}
use rinasensev.Cdap.Roundtrip.{
  IsSendable, message_over, transferred, transferred_over, IsSendable-ser_to_rina_message,
}
use rinasensev.Ribd.{Ribd}
use rinasensev.Ribd.Request.{Sender, encode_cdap}
use rinasensev.Ribd.Handle.{Codec, Call, handle_message, process_layer_management_pdu}

-- What nanopb promises for a message: where the sender's encodes the struct, the receiver's decodes
-- the bytes to that struct.
abbrev pub ReadsBack : Sender → Codec → Cdap → Bytes → Type 0
ReadsBack k c m bytes =
    (w : Wire)
    → ser_to_rina_message m ≡ some w
    → k.pb_encode w ≡ some bytes
    → c.pb_decode bytes ≡ some w

-- The outcome of a message that is handled.
abbrev pub handled : Option (Bool × Ribd × Option Call) → Option (Bool × Ribd × Option Call)
handled o = do (ret, s', call) ← o; some (true, s', call)

injective {ℓ} : {A : Type ℓ} (a b : A) → some a ≡ some b → a ≡ b
injective a b h = cc

some-none {ℓ} : {A : Type ℓ} (a : A) → none ≡ some a → ⊥
some-none a h = cc

encoded :
    (k : Sender) (m : Cdap) (w : Wire) (bytes : Bytes)
    → ser_to_rina_message m ≡ some w
    → encode_cdap k m ≡ some (some bytes)
    → k.pb_encode w ≡ some bytes
unfolding encode_cdap
encoded k m w bytes filled run = elim (Option-cases (k.pb_encode w)) [
  | inl refused ↦
      let lost : encode_cdap k m ≡ some none = rw (filled, refused) refl in
      absurd (some-none bytes (injective none (some bytes) (sym lost ∙ run)))
  | inr (bs, done) ↦ elim (Bool-cases k.has_buffer) [
    | inl there ↦
        let got : encode_cdap k m ≡ some (some bs) = rw (filled, done, there) refl in
        done ∙ injective (some bs) (some bytes) (sym got ∙ run)
    | inr missing ↦
        let fault : encode_cdap k m ≡ none = rw (filled, done, missing) refl in
        absurd (some-none (some bytes) (sym fault ∙ run))
  ]
]

filled-over :
    (m held : Cdap) (w : Wire)
    → IsSendable m
    → ser_to_rina_message m ≡ some w
    → fill_decode_message w held ≡ message_over m held
unfolding transferred
filled-over m held w fits filled =
    let whole : transferred m held ≡ some (fill_decode_message w held) = rw filled refl in
    injective (fill_decode_message w held) (message_over m held)
      (sym whole ∙ transferred_over m held fits)

-- A message whose fields fit the arrays of the struct, and that nanopb encodes into the buffer of
-- the sender, is handled by the receiver, when its nanopb reads back what was encoded, as the
-- message with every field that was sent. A field that was not sent holds what the receiver's
-- memory held, but for a result of -1, which arrives as 0.
pub message_arrives :
    (k : Sender) (c : Codec) (m held : Cdap) (s : Ribd) (bytes : Bytes) (port : ℕ)
    → IsSendable m
    → encode_cdap k m ≡ some (some bytes)
    → ReadsBack k c m bytes
    → process_layer_management_pdu c held s bytes port
      ≡ handled (handle_message c held s (message_over m held) port)
unfolding process_layer_management_pdu
message_arrives k c m held s bytes port fits run reads =
    let (w, filled) = IsSendable-ser_to_rina_message m fits in
    rw (reads w filled (encoded k m w bytes filled run), filled-over m held w fits filled) refl
