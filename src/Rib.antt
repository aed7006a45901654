-- ===== src/Rib.antt =====
-- components/Ipcp/Modules/rib.c: the table of the objects of the resource information base. A
-- function pointer that no one has set is `none`.
use rinasensev.Prelude.{Bool, if◌then◌else◌, Option, none, some, List, ℕ}
use rinasensev.Strings.{CString}
use rinasensev.Gpha.{bytes_eq}
use rinasensev.Table.{Slot, insert, find, has_valid}

abbrev pub table_size : ℕ
table_size = 10

-- eObjectType_t.
pub data ObjectType : Type 0 where
  enrollment flow_allocator operational flow : ObjectType

-- The functions of enrollment.c and flowAllocator.c that objects point at.
pub data ObjFunction : Type 0 where
  enrollment_handle_stop enrollment_enroller enrollment_handle_operational_start : ObjFunction
  flow_allocator_handle_delete : ObjFunction

-- struct ribObjOps_t.
pub record ObjOps : Type 0 where
  pub start : Option ObjFunction
  pub stop : Option ObjFunction
  pub create : Option ObjFunction
  pub delete : Option ObjFunction

-- struct ribObject_t, without ucObjClass, which nothing sets.
pub record RibObject : Type 0 where
  pub name : CString
  pub inst : ℕ
  pub displayable_value : Option CString
  pub ops : ObjOps

abbrev pub no_ops : ObjOps
no_ops = record { start = none; stop = none; create = none; delete = none }

abbrev pub ops_of : ObjectType → ObjOps
ops_of enrollment = record no_ops {
  stop = some enrollment_handle_stop;
  start = some enrollment_enroller;
}
ops_of flow_allocator = no_ops
ops_of operational = record no_ops { start = some enrollment_handle_operational_start }
ops_of flow = record no_ops { delete = some flow_allocator_handle_delete }

abbrev pub is_named : CString → RibObject → Bool
is_named name o = bytes_eq o.name name

-- pxRibFindObject. strcmp with a NULL name is a fault at the first valid row.
unfoldable pub find_object : List (Slot RibObject) → Option CString → Option (Option RibObject)
find_object rows none = if has_valid rows then none else some none
find_object rows (some name) = some (find (is_named name) rows)

-- pxRibCreateObject. strdup of a NULL name is a fault; a full table drops the object.
unfoldable pub create_object :
    List (Slot RibObject)
    → Option CString
    → ℕ
    → Option CString
    → ObjectType
    → Option (RibObject × List (Slot RibObject))
create_object rows none inst displayable type = none
create_object rows (some name) inst displayable type =
    let o : RibObject = record {
      name = name;
      inst = inst;
      displayable_value = displayable;
      ops = ops_of type;
    } in
    some (o, insert o rows)
