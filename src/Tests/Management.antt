-- ===== src/Tests/Management.antt =====
-- The RIB daemon with one connection in progress on port 7 to the peer "b", and tables of two rows.
use rinasensev.Prelude.{◌≡◌, refl, true, false, none, some, [], ◌∷◌, arith}
use rinasensev.Names.{name_of}
use rinasensev.Table.{Slot}
use rinasensev.Rib.{find_object}
use rinasensev.Cdap.{Cdap, OpCode, ser_to_rina_message}
use rinasensev.Cdap.Roundtrip.{NameFits, message_over}
use rinasensev.Ribd.Transfer.{handled, message_arrives}
use rinasensev.Ribd.{
  Ribd, AppConnection, HandlerEntry, Callback, connected, connection_in_progress,
  get_next_invoke_id, enrollment_handle_start_r, find_app_connection, write_connection,
}
use rinasensev.Ribd.Request.{Sender, management_name, message_cdap_init, encode_cdap}
use rinasensev.Ribd.Handle.{
  Codec, process_layer_management_pdu, start_response, enrollment_handle_connect_r, accepted,
  handle_message, handle_op, handle_connect_r,
}
use rinasensev.Ribd.Exchange.{answered, request_is_answered, full_table_faults}
use rinasensev.Ribd.Lifecycle.{connect_r_connects_once}
use rinasensev.Ribd.Kept.{NoneReleased}
use rinasensev.Ribd.Reach.{Reach, Step, never_released}

abbrev unset : Callback
unset = record { start_response = none; stop_response = none; create_response = none }

abbrev dialled : AppConnection
dialled = record {
  source = name_of (some (97 ∷ [])) (some []) (some []) (some []);
  destination = name_of (some (98 ∷ [])) (some []) (some []) (some []);
  status = connection_in_progress;
}

abbrev free_handler : Slot HandlerEntry
free_handler = record { valid = false; item = record { invoke_id = 0; callback = unset } }

abbrev used_handler : Slot HandlerEntry
used_handler = record { valid = true; item = record { invoke_id = 9; callback = unset } }

abbrev daemon : Ribd
daemon = record {
  objects = [];
  handlers = used_handler ∷ free_handler ∷ [];
  connections = record { valid = true; item = record { n1_port = 7; connection = dialled } } ∷ [];
  next_invoke_id = 1;
}

abbrev full : Ribd
full = record daemon { handlers = used_handler ∷ used_handler ∷ [] }

abbrev sender : Sender
sender = record { pb_encode = λ w. some (1 ∷ []); has_buffer = true }

abbrev codec : Codec
codec = record { pb_decode = λ b. none; pb_decode_a_data = λ b. none; held_destination = 0 }

abbrev answer : Cdap
answer = record message_cdap_init { source = dialled.destination }

management_fits : NameFits management_name
management_fits = record {
  process_name = tt;
  process_instance = tt;
  entity_name = omega arith;
  entity_instance = omega arith;
}

-- The peer's answer to M_CONNECT, and a nanopb that decodes what it encoded of it.
abbrev accepting : Cdap
accepting = record message_cdap_init {
  op_code = OpCode.m_connect_r;
  source = record management_name { process_name = some (98 ∷ []) };
}

abbrev reading : Codec
reading = record {
  pb_decode = λ b. ser_to_rina_message accepting;
  pb_decode_a_data = λ b. none;
  held_destination = 0;
}

message_arrives_example :
    process_layer_management_pdu reading answer daemon (1 ∷ []) 7
    ≡ handled (handle_message reading answer daemon (message_over accepting answer) 7)
unfolding encode_cdap ser_to_rina_message
message_arrives_example =
    message_arrives sender reading accepting answer daemon (1 ∷ []) 7
      (record {
        destination = management_fits;
        source = record {
          process_name = omega arith;
          process_instance = tt;
          entity_name = omega arith;
          entity_instance = omega arith;
        };
        auth = tt;
        obj_class = tt;
        obj_name = tt;
        obj_value = tt;
      })
      refl (λ w filled done. filled)

request_is_answered_example :
    (s' : Ribd) × (answered sender unset codec answer daemon none 0 OpCode.m_start 7 none
        (record answer { op_code = OpCode.m_start_r; invoke_id = 1 })
      ≡ some (true, s', some (start_response enrollment_handle_start_r (some (98 ∷ [])) none)))
unfolding find_app_connection find_object get_next_invoke_id
request_is_answered_example =
    request_is_answered sender unset codec answer daemon none 0 7 none answer dialled none refl refl
      refl tt tt refl refl

full_table_faults_example :
    answered sender unset codec answer full none 0 OpCode.m_start 7 none
      (record answer { op_code = OpCode.m_start_r; invoke_id = 1 })
    ≡ none
unfolding find_object get_next_invoke_id
full_table_faults_example =
    full_table_faults sender unset codec answer full none 0 7 none answer none refl refl refl tt tt
      refl

connect_r_connects_once_example :
    (s' : Ribd) × (handle_message codec answer daemon
        (record answer { op_code = OpCode.m_connect_r })
        7
      ≡ some (true, s', some (enrollment_handle_connect_r (some (98 ∷ [])) 7)))
    × (find_app_connection s' 7
        ≡ some (record dialled {
          destination = record dialled.destination { process_name = some (98 ∷ []) };
          status = connected;
        }))
    × (handle_message codec answer s' (record answer { op_code = OpCode.m_connect_r }) 7
        ≡ some (true, s', none))
unfolding find_app_connection find_object get_next_invoke_id
connect_r_connects_once_example =
    connect_r_connects_once codec answer daemon answer 7 dialled none refl refl refl

-- The daemon after M_CONNECT_R.
abbrev daemon_connected : Ribd
daemon_connected = record daemon {
  connections =
      record {
        valid = true;
        item = record { n1_port = 7; connection = accepted (some (98 ∷ [])) dialled };
      }
      ∷ [];
}

connected-Step : Step daemon daemon_connected
unfolding handle_message handle_op handle_connect_r find_app_connection find_object write_connection
connected-Step =
    Step.message codec answer (record answer { op_code = OpCode.m_connect_r }) 7 true
      (some (enrollment_handle_connect_r (some (98 ∷ [])) 7)) refl

daemon_released : NoneReleased daemon
daemon_released = ((λ _ h. cc), tt)

never_released_example : NoneReleased daemon_connected
never_released_example =
    never_released daemon daemon_connected (Reach.then_step Reach.here connected-Step)
      daemon_released
