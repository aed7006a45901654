-- ===== src/Ribd/Kept.antt =====
-- The handling of a message in components/Ipcp/Modules/ribd.c and the states of the connections.
use rinasensev.Prelude.{
  ℕ, ◌≡◌, ◌≢◌, refl, subst, Bool, true, false, not, if◌then◌else◌, ◌==◌, Option, none, some, ◌>>=◌,
}
use rinasensev.Gpha.{Bytes, bytes_eq}
use rinasensev.Table.{find}
use rinasensev.Table.Search.{AllItems, AllItems-update, AllItems-find}
use rinasensev.Rib.{RibObject, ObjFunction, find_object, create_object, enrollment}
use rinasensev.Cdap.{Cdap, OpCode}
use rinasensev.Ribd.{
  Ribd, AppConnection, ConnectionEntry, Status, connection_in_progress, connected, released,
  find_app_connection, find_pending_response_handler, connection_of, write_connection, is_at,
}
use rinasensev.Ribd.Handle.{
  Codec, Call, handle_op, accepted, connect_r_in, release_r_in, handle_connect_r, handle_release_r,
  handle_connect, handle_object, handle_write, handled_a_data, a_data, decode_a_data, local_address,
}

-- No connection is released.
abbrev pub NotReleased : ConnectionEntry → Type 0
NotReleased e = e.connection.status ≢ released

abbrev pub NoneReleased : Ribd → Type 0
NoneReleased s = AllItems NotReleased s.connections

-- What a chain ends with has the property, if it does not fault.
unfoldable pub Ends {ℓ} : {A : Type ℓ} → (A → Type 0) → Option A → Type 0
Ends P none = Unit {0}
Ends P (some a) = P a

pub Ends-chain {ℓ κ} :
    {A : Type ℓ} {B : Type κ} (P : B → Type 0) (o : Option A) (f : A → Option B)
    → ((a : A) → Ends P (f a))
    → Ends P (o >>= f)
unfolding Ends
Ends-chain P none f h = tt
Ends-chain P (some a) f h = h a

pub Ends-some {ℓ} :
    {A : Type ℓ} (P : A → Type 0) (o : Option A) (a : A) → Ends P o → o ≡ some a → P a
unfolding Ends
Ends-some P o a h e = subst (Ends P) e h

unfoldable pub Handled : Bool × Ribd × Option Call → Type 0
Handled p = NoneReleased p.1

no_connection : (c : AppConnection) → none ≡ some c → ⊥
no_connection c h = cc

connection_injective : (a b : AppConnection) → some a ≡ some b → a ≡ b
connection_injective a b h = cc

connected_released : connected ≢ released
connected_released h = cc

pub in_progress_released : connection_in_progress ≢ released
in_progress_released h = cc

found-NotReleased :
    (o : Option ConnectionEntry) (c : AppConnection)
    → ((e : ConnectionEntry) → o ≡ some e → NotReleased e)
    → connection_of o ≡ some c
    → c.status ≢ released
found-NotReleased none c h found = absurd (no_connection c found)
found-NotReleased (some e) c h found =
    subst (λ z. z.status ≢ released) (connection_injective e.connection c found) (h e refl)

at_port :
    (s : Ribd) (port : ℕ)
    → NoneReleased s
    → (c : AppConnection) → find_app_connection s port ≡ some c
    → c.status ≢ released
unfolding find_app_connection
at_port s port h c found =
    found-NotReleased (find (is_at port) s.connections) c
      (λ e there. AllItems-find NotReleased (is_at port) s.connections e h there) found

connect_r_in-NoneReleased :
    (s : Ribd) (m : Cdap) (port : ℕ) (st : Status)
    → NoneReleased s
    → Ends Handled (connect_r_in s m port st)
unfolding Ends Handled write_connection
connect_r_in-NoneReleased s m port connection_in_progress h =
    AllItems-update NotReleased (is_at port)
      (λ e. record e { connection = accepted m.source.process_name e.connection }) s.connections
      (λ e _. connected_released) h
connect_r_in-NoneReleased s m port connected h = h
connect_r_in-NoneReleased s m port released h = h

release_r_in-NoneReleased :
    (s : Ribd) (port : ℕ) (st : Status)
    → st ≢ released
    → NoneReleased s
    → Ends Handled (release_r_in s port st)
unfolding Ends Handled
release_r_in-NoneReleased s port connection_in_progress other h = h
release_r_in-NoneReleased s port connected other h = h
release_r_in-NoneReleased s port released other h = absurd (other refl)

handle_connect-NoneReleased :
    (s : Ribd) (o : Option AppConnection) → NoneReleased s → Ends Handled (handle_connect s o)
unfolding Ends Handled handle_connect
handle_connect-NoneReleased s none h = tt
handle_connect-NoneReleased s (some c) h = h

handle_connect_r-NoneReleased :
    (s : Ribd) (m : Cdap) (port : ℕ) (o : Option AppConnection)
    → NoneReleased s
    → Ends Handled (handle_connect_r s m port o)
unfolding Ends handle_connect_r
handle_connect_r-NoneReleased s m port none h = tt
handle_connect_r-NoneReleased s m port (some c) h = connect_r_in-NoneReleased s m port c.status h

handle_release_r-NoneReleased :
    (s : Ribd) (port : ℕ) (o : Option AppConnection)
    → ((c : AppConnection) → o ≡ some c → c.status ≢ released)
    → NoneReleased s
    → Ends Handled (handle_release_r s port o)
unfolding Ends handle_release_r
handle_release_r-NoneReleased s port none found h = tt
handle_release_r-NoneReleased s port (some c) found h =
    release_r_in-NoneReleased s port c.status (found c refl) h

handle_object-NoneReleased :
    (s : Ribd) (m : Cdap) (port : ℕ) (conn : Option AppConnection) (object : Option RibObject)
    (op : RibObject → Option ObjFunction)
    → NoneReleased s
    → Ends Handled (handle_object s m port conn object op)
unfolding handle_object Handled Ends
handle_object-NoneReleased s m port conn object op h =
    Ends-chain Handled object _
      (λ o. Ends-chain Handled (op o) _ (λ f. Ends-chain Handled conn _ (λ c. h)))

-- The chain that searches the object of a message first.
named {ℓ} :
    {A : Type ℓ} (P : A → Type 0) (s : Ribd) (m : Cdap) (f : Option RibObject → Option A)
    → ((o : Option RibObject) → Ends P (f o))
    → Ends P (find_object s.objects m.obj_name >>= f)
named P s m f h = Ends-chain P (find_object s.objects m.obj_name) f h

write_to-NoneReleased :
    (k : Codec) (s : Ribd) (held : Cdap) (there : Bool) (inner : Option Bytes)
    → NoneReleased s
    → Ends Handled (
        if there
        then (inner >>= λ bytes. handled_a_data k s held bytes >>= λ call. some (true, s, call))
        else some (true, s, none))
unfolding Handled Ends
write_to-NoneReleased k s held false inner h = h
write_to-NoneReleased k s held true inner h =
    Ends-chain Handled inner _
      (λ bytes. Ends-chain Handled (handled_a_data k s held bytes) _ (λ call. h))

handle_write-NoneReleased :
    (k : Codec) (s : Ribd) (held m : Cdap) → NoneReleased s → Ends Handled (handle_write k s held m)
unfolding handle_write Handled Ends
handle_write-NoneReleased k s held m h = Ends-chain Handled m.obj_name _ (λ name.
    elim (bytes_eq name a_data)
      as (λ b. Ends Handled (
        if not b
        then some (true, s, none)
        else (m.obj_value >>= λ value. decode_a_data k value >>= λ p.
            if p.0 == local_address
            then (p.1 >>= λ bytes. handled_a_data k s held bytes >>= λ call. some (true, s, call))
            else some (true, s, none)))) [
              | false ↦ h
              | true ↦ Ends-chain Handled m.obj_value _ (λ value.
                  Ends-chain Handled (decode_a_data k value) _
                    (λ p. write_to-NoneReleased k s held (p.0 == local_address) p.1 h))
            ])

pub handle_op-NoneReleased :
    (k : Codec) (held : Cdap) (s : Ribd) (m : Cdap) (port : ℕ) (op : OpCode)
    → NoneReleased s
    → Ends Handled (handle_op k held s m port op)
unfolding handle_op Handled Ends
handle_op-NoneReleased k held s m port (OpCode.above_max n) h = h
handle_op-NoneReleased k held s m port OpCode.m_connect h =
    named Handled s m _ (λ _. handle_connect-NoneReleased s (find_app_connection s port) h)
handle_op-NoneReleased k held s m port OpCode.m_connect_r h =
    named Handled s m _ (λ _. handle_connect_r-NoneReleased s m port (find_app_connection s port) h)
handle_op-NoneReleased k held s m port OpCode.m_release_r h =
    named Handled s m _
      (λ _. handle_release_r-NoneReleased s port (find_app_connection s port) (at_port s port h) h)
handle_op-NoneReleased k held s m port OpCode.m_create h = named Handled s m _ (λ _.
    Ends-chain Handled (create_object s.objects m.obj_name m.obj_inst m.obj_name enrollment) _
      (λ _. h))
handle_op-NoneReleased k held s m port OpCode.m_stop h =
    named Handled s m _
      (λ o. handle_object-NoneReleased s m port (find_app_connection s port) o (λ o. o.ops.stop) h)
handle_op-NoneReleased k held s m port OpCode.m_start h =
    named Handled s m _
      (λ o. handle_object-NoneReleased s m port (find_app_connection s port) o (λ o. o.ops.start) h)
handle_op-NoneReleased k held s m port OpCode.m_start_r h = named Handled s m _ (λ _.
    Ends-chain Handled (find_pending_response_handler s m.invoke_id) _ (λ cb.
      Ends-chain Handled (find_app_connection s port) _
        (λ _. Ends-chain Handled cb.start_response _ (λ _. h))))
handle_op-NoneReleased k held s m port OpCode.m_stop_r h = named Handled s m _ (λ _.
    Ends-chain Handled (find_pending_response_handler s m.invoke_id) _ (λ cb.
      Ends-chain Handled (find_app_connection s port) _
        (λ _. Ends-chain Handled cb.stop_response _ (λ _. h))))
handle_op-NoneReleased k held s m port OpCode.m_create_r h = named Handled s m _ (λ _.
    Ends-chain Handled (find_pending_response_handler s m.invoke_id) _
      (λ cb. Ends-chain Handled cb.create_response _ (λ _. h)))
handle_op-NoneReleased k held s m port OpCode.m_write h =
    named Handled s m _ (λ _. handle_write-NoneReleased k s held m h)
handle_op-NoneReleased k held s m port op h = named Handled s m _ (λ _. h)
