-- ===== src/Ribd/Reach.antt =====
-- Every order of the operations of components/Ipcp/Modules/ribd.c.
use rinasensev.Prelude.{ℕ, ◌≡◌, ◌≢◌, Bool, Option, none, some, ◌>>=◌}
use rinasensev.Strings.{CString}
use rinasensev.Names.{Name}
use rinasensev.Gpha.{Bytes}
use rinasensev.Table.Search.{AllItems-insert}
use rinasensev.Cdap.{Cdap, OpCode}
use rinasensev.Ribd.{
  Ribd, AppConnection, Callback, released, add_app_connection_entry, add_response_handler,
  create_connection, create_cdap_callback, get_next_invoke_id, copy_side, strdup,
}
use rinasensev.Ribd.Request.{
  Sender, send_request, send_message, send_response, connect, encode_cdap, request_message,
  response_message, sent, connect_side, message_cdap_init,
}
use rinasensev.Ribd.Handle.{Codec, Call, handle_message}
use rinasensev.Ribd.Kept.{
  NotReleased, NoneReleased, Ends, Ends-chain, Ends-some, Handled, handle_op-NoneReleased,
  in_progress_released,
}

-- Operations as steps: the caller chooses the arguments and what the other modules answer.
pub data Step : Ribd → Ribd → Type 0 where
  request :
      {s s' : Ribd} (k : Sender) (held : Callback) (cls name : Option CString) (inst : ℕ)
      (op : OpCode) (port : ℕ) (value : Option Bytes) (ok : Bool) (out : Option (ℕ × Bytes))
      → send_request k held s cls name inst op port value ≡ some (ok, out, s')
      → Step s s'
  response :
      {s s' : Ribd} (k : Sender) (name : Option CString) (inst result : ℕ) (op : OpCode)
      (id port : ℕ) (value : Option Bytes) (ok : Bool) (out : Option (ℕ × Bytes))
      → send_response k s name inst result op id port value ≡ some (ok, out, s')
      → Step s s'
  connection :
      {s s' : Ribd} (k : Sender) (op : OpCode) (held_source held_dest source dest : Name) (port : ℕ)
      (auth_name auth_version : Option CString) (ok : Bool) (out : Option (ℕ × Bytes))
      → connect k op held_source held_dest s source dest port auth_name auth_version
        ≡ some (ok, out, s')
      → Step s s'
  message :
      {s s' : Ribd} (k : Codec) (held m : Cdap) (port : ℕ) (ok : Bool) (call : Option Call)
      → handle_message k held s m port ≡ some (ok, s', call)
      → Step s s'

pub data Reach (start : Ribd) : Ribd → Type 0 where
  here : Reach start start
  then_step : {s s' : Ribd} → Reach start s → Step s s' → Reach start s'

Sent : Bool × Option (ℕ × Bytes) × Ribd → Type 0
Sent p = NoneReleased p.2

sent-NoneReleased :
    (port : ℕ) (s : Ribd) (bytes : Option Bytes) → NoneReleased s → Sent (sent port s bytes)
unfolding Sent
sent-NoneReleased port s none h = h
sent-NoneReleased port s (some bytes) h = h

Ends-after {ℓ κ} :
    {A : Type ℓ} {B : Type κ} (Q : A → Type 0) (P : B → Type 0) (o : Option A) (f : A → Option B)
    → Ends Q o
    → ((a : A) → Q a → Ends P (f a))
    → Ends P (o >>= f)
unfolding Ends
Ends-after Q P none f q h = tt
Ends-after Q P (some a) f q h = h a q

Fresh : AppConnection → Type 0
Fresh c = c.status ≢ released

create_connection-Fresh :
    (source dest held_source held_dest : Name)
    → Ends Fresh (create_connection source dest held_source held_dest)
unfolding create_connection Ends Fresh
create_connection-Fresh source dest held_source held_dest =
    Ends-chain Fresh (copy_side source held_source) _
      (λ _. Ends-chain Fresh (copy_side dest held_dest) _ (λ _. in_progress_released))

add_app_connection-NoneReleased :
    (s : Ribd) (c : AppConnection) (port : ℕ)
    → Fresh c
    → NoneReleased s
    → NoneReleased (add_app_connection_entry s c port)
unfolding add_app_connection_entry Fresh
add_app_connection-NoneReleased s c port fresh h =
    AllItems-insert NotReleased (record { n1_port = port; connection = c }) s.connections fresh h

connect-NoneReleased :
    (k : Sender) (op : OpCode) (held_source held_dest : Name) (s : Ribd) (source dest : Name)
    (port : ℕ) (auth_name auth_version : Option CString)
    → NoneReleased s
    → Ends Sent (connect k op held_source held_dest s source dest port auth_name auth_version)
unfolding connect Ends
connect-NoneReleased k op held_source held_dest s source dest port auth_name auth_version h =
    Ends-chain Sent (connect_side dest) _ (λ dest'.
      Ends-chain Sent (connect_side source) _ (λ source'.
        Ends-chain Sent (strdup auth_name) _ (λ name.
          Ends-chain Sent (strdup auth_version) _ (λ version.
            Ends-after Fresh Sent (create_connection source dest held_source held_dest) _
              (create_connection-Fresh source dest held_source held_dest)
              (λ c fresh.
                Ends-chain Sent
                  (encode_cdap k (record message_cdap_init {
                    op_code = op;
                    destination = dest';
                    source = source';
                    auth_name = name;
                    auth_version = version;
                  }))
                  _
                  (λ bytes.
                    sent-NoneReleased port (add_app_connection_entry s c port) bytes
                      (add_app_connection-NoneReleased s c port fresh h)))))))

send_message-NoneReleased :
    (k : Sender) (held : Callback) (s : Ribd) (op : OpCode) (id next port : ℕ) (m : Option Cdap)
    → NoneReleased s
    → Ends Sent (send_message k held s op id next port m)
unfolding Ends Sent add_response_handler
send_message-NoneReleased k held s op id next port none h = h
send_message-NoneReleased k held s op id next port (some m) h =
    Ends-chain Sent (encode_cdap k m) _ (λ bytes.
      sent-NoneReleased port
        (add_response_handler (record s { next_invoke_id = next }) id
          (some (create_cdap_callback op held)))
        bytes h)

send_response-NoneReleased :
    (k : Sender) (s : Ribd) (name : Option CString) (inst result : ℕ) (op : OpCode) (id port : ℕ)
    (value : Option Bytes)
    → NoneReleased s
    → Ends Sent (send_response k s name inst result op id port value)
unfolding Ends send_response
send_response-NoneReleased k s name inst result op id port value h =
    Ends-chain Sent (response_message name inst result op value id s.next_invoke_id) _ (λ p.
      Ends-chain Sent (encode_cdap k p.0) _
        (λ bytes. sent-NoneReleased port (record s { next_invoke_id = p.1 }) bytes h))

Step-NoneReleased : {s s' : Ribd} → Step s s' → NoneReleased s → NoneReleased s'
unfolding Handled Sent handle_message send_request
Step-NoneReleased {s} {s'} (Step.message k held m port ok call run) h =
    Ends-some Handled (handle_message k held s m port) (ok, s', call)
      (handle_op-NoneReleased k held s m port m.op_code h) run
Step-NoneReleased {s} {s'} (Step.connection k op hs hd source dest port an av ok out run) h =
    Ends-some Sent (connect k op hs hd s source dest port an av) (ok, out, s')
      (connect-NoneReleased k op hs hd s source dest port an av h) run
Step-NoneReleased {s} {s'} (Step.request k held cls name inst op port value ok out run) h =
    let (id, next) = get_next_invoke_id s.next_invoke_id in
    Ends-some Sent (send_request k held s cls name inst op port value) (ok, out, s')
      (send_message-NoneReleased k held s op id next port
        (request_message cls name inst op value id) h)
      run
Step-NoneReleased {s} {s'} (Step.response k name inst result op id port value ok out run) h =
    Ends-some Sent (send_response k s name inst result op id port value) (ok, out, s')
      (send_response-NoneReleased k s name inst result op id port value h) run

-- From a state in which no connection is released, requests, responses, new connections and
-- messages that are handled, in every order, never release one.
pub never_released : (start s : Ribd) → Reach start s → NoneReleased start → NoneReleased s
never_released start s Reach.here h = h
never_released start s (Reach.then_step r step) h =
    Step-NoneReleased step (never_released start _ r h)
