-- ===== src/Ids.antt =====
-- components/Rina-manager/Common/include/common/rina_ids.h: the identifiers of the stack and the
-- values that stand for a wrong one. An id is a number; its width is the type's in C.
use rinasensev.Prelude.{ℕ, ◌-◌, ◌^◌, Bool, not, ◌==◌}

abbrev pub port_id_wrong : ℕ
port_id_wrong = 2 ^ 32 - 1

abbrev pub cep_id_wrong : ℕ
cep_id_wrong = 2 ^ 8 - 1

abbrev pub address_wrong : ℕ
address_wrong = 2 ^ 8 - 1

abbrev pub qos_id_wrong : ℕ
qos_id_wrong = 2 ^ 8 - 1

abbrev pub is_port_id_ok : ℕ → Bool
is_port_id_ok id = not (id == port_id_wrong)

abbrev pub is_cep_id_ok : ℕ → Bool
is_cep_id_ok id = not (id == cep_id_wrong)

abbrev pub is_address_ok : ℕ → Bool
is_address_ok address = not (address == address_wrong)

abbrev pub is_qos_id_ok : ℕ → Bool
is_qos_id_ok id = not (id == qos_id_wrong)
