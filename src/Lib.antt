-- ===== src/Lib.antt =====
-- Verification of the RINA stack for sensors: its data path, the RIB daemon, names, ARP
-- and the WiFi shim (components/Ipcp, components/Rina-manager/Common and components/Shim).
--
-- A frame from the N-1 IPC process comes to the relaying and multiplexing task (rmt.c), which
-- decapsulates it (du.c, pci.c) and hands it to layer management or, by the connection-endpoint id
-- (CEP-id) in its header, to an instance of the EFCP container (efcp.c), whose data transfer protocol
-- (dtp.c) destroys it or hands it to the flow allocator. What an application writes goes the other
-- way. Port ids come from the number manager (num_mgr.c) over an array of bits.
--
-- Layer management hands its data units to the RIB daemon (ribd.c), which decodes them into messages
-- and calls the functions of RIB objects (rib.c) or those that wait for a response. Below the stack a
-- shim resolves the protocol address of a neighbour, which is the text of a name (rina_name.c,
-- rina_gpha.c), to a MAC address by ARP (Arp826.c).
--
-- - BitArray: components/Rina-manager/Common/include/common/bit_array.h.
-- - NumMgr: components/Rina-manager/Common/num_mgr.c; `allocate` is ulNumMgrAllocate on fuel. A
--   round of its loop visits one number, so num_cnt + 1 rounds see every number and come back to
--   the last one handed out, where the loop ends if it ends at all.
-- - Rsrc: components/Rina-manager/Common/rsrc.c; `var_alloc` is pxRsrcVarAlloc, `free_rsrc`
--   vRsrcFree. The address that the heap gives is an argument; where it gives none, the program
--   aborts.
-- - NetBuffers: components/Rina-manager/BufferManagement/BufferManagement.c; `get` is
--   pxGetNetworkBufferWithDescriptorFor, `release` vReleaseNetworkBufferAndDescriptor.
-- - Ids: components/Rina-manager/Common/include/common/rina_ids.h.
-- - Pci: components/Ipcp/Modules/pci.c and include/pci.h; the packed header as 14 bytes.
-- - Du: components/Ipcp/Modules/du.c; `decap` is xDuDecap, `encap` xDuEncap, `destroy` xDuDestroy.
-- - Buffers: what is asked of the network buffers by the data path, as an interface: buffers are
--   taken from a pool and given back, and are counted. Every module from Du on takes it as a parameter.
-- - Stack: the structs of components/Ipcp/Modules/include/efcpStructures.h and rmt.h and the state
--   they form together. The memory of the EFCP instances is a list in which a freed one is `none`; what
--   leaves the data path is an event in a log, last first.
-- - Dtp: the receiving side of components/Ipcp/Modules/dtp.c; `decide` is the part of xDtpReceive
--   that looks at the header, `receive` the whole of it.
-- - Efcp: components/Ipcp/Modules/efcp.c; `container_receive` is xEfcpContainerReceive, and
--   `connection_create`, `connection_modify`, `connection_update` and `connection_destroy` are
--   the functions of those names.
-- - Rmt: components/Ipcp/Modules/rmt.c; `receive` is xRmtReceive, `send` xRmtSend.
-- - Outbound: xDtpWrite and xDtpPduSend of dtp.c, xEfcpContainerWrite of efcp.c.
-- - Memory: the answers of pvRsMemAlloc, an input of the modules that follow.
-- - Strings: what is used of the C library on strings.
-- - Names: components/Rina-manager/Common/rina_name.c; `string_to_name` is xRINAstringToName,
--   `name_to_string` pcNameToString, `name_from_string` xRinaNameFromString.
-- - Gpha: components/Rina-manager/Common/rina_gpha.c, and the padding of addresses in
--   components/Shim/Arp826/Arp826.c.
-- - Arp: components/Shim/Arp826/Arp826.c in the build with NDEBUG. Protocol and hardware addresses
--   stand in two stores, so that rows can share them; Arp/Update adds and removes, Arp/Refresh is
--   vARPRefreshCacheEntry, Arp/Packet generates and processes packets.
-- - Table: the tables of fixed size of rib.c, ribd.c, flowAllocator.c and IPCP_manager.c.
-- - Cdap: the messages of components/Ipcp/Modules/ribd.c and their struct on the wire.
-- - Rib: components/Ipcp/Modules/rib.c.
-- - Ribd: components/Ipcp/Modules/ribd.c; Ribd/Request is its sending side (`send_request` is
--   xRibdSendRequest, `connect` xRibdConnectToIpcp), Ribd/Handle its receiving side
--   (`handle_message` is vRibHandleMessage). nanopb is a parameter, and a function of
--   enrollment.c or flowAllocator.c that is called is a value, which the operation returns.
-- - FlowAllocator: components/Ipcp/Modules/flowAllocator.c; `du_post` is xFlowAllocatorDuPost,
--   `handle_create_r` xFlowAllocatorHandleCreateR; FlowAllocator/Request is vFlowAllocatorFlowRequest
--   and FlowAllocator/Response reads the flow message, as pxSerdesMsgDecodeFlow of
--   components/Ipcp/Modules/serdesMsg.c does.
-- - Enrollment: components/Ipcp/Modules/enrollment.c and its messages in
--   components/Ipcp/Modules/serdesMsg.c; the handlers are in Enrollment/Handlers.
-- - Normal: components/Ipcp/IPCP_ops.c; `mgmt_du_write` is xNormalMgmtDuWrite, `du_write`
--   xNormalDuWrite. `stack_rx` and `stack_tx` are two events of components/Ipcp/IPCP_task.c.
-- - Manager: components/Rina-manager/IPCP_manager.c in the build with SHIM_802154_MODULE, and
--   pxShim802154Create of components/Shim/ieee802154/ieee802154_IPCP_ops.c.
-- - Api: components/Rina-api/rina_api.c; `flow_write` is RINA_flow_write, `connect` prvConnect.
-- - RsList: components/Rina-manager/Common/include/common/list.h and list.c on a heap of links.
-- - Shim: components/Shim/shim_IPCP_flow.c, and the ops of components/Shim/WiFi/wifi_IPCP_ops.c in
--   Shim/Flow (flow allocation), Shim/Register and Shim/Frames, which also is
--   components/Shim/WiFi/wifi_IPCP_ethernet.c. Its lists are sequences of items.
-- - Tests with its children and NumMgr/Tests: runs at concrete inputs.
--
-- A function that may read through a pointer that is not set returns an Option, `none` where it
-- does. Words are those of the ESP32: unsigned int and size_t have 32 bits, and bytes stand in memory
-- with the low one first. The answers of the flow allocator, of layer management and of the N-1 IPC
-- process are the parameter `Env`; memory that is or is not there is a Boolean argument.
--
-- Not modelled: the resizing of network buffers, the blocking waits of applications and their reading,
-- the IEEE 802.15.4 shim but for its creation, and the loop of the task of the IPC process; drivers
-- and the portability layer, which are input, output and operating system; nanopb, the hash table and
-- POSIX for FreeRTOS, which are other projects' code. Locks are left out: each
-- operation is a step of its own. Counters that nothing updates are left out of the structs.
pub mod Prelude
pub mod BitArray
pub mod NumMgr
pub mod Ids
pub mod Buffers
pub mod Pci
pub mod Du
pub mod Rsrc
pub mod NetBuffers
pub mod Stack
pub mod Dtp
pub mod Efcp
pub mod Rmt
pub mod Outbound
pub mod Tests
pub mod Memory
pub mod Strings
pub mod Names
pub mod Gpha
pub mod Arp
pub mod Cdap
pub mod Table
pub mod Rib
pub mod Ribd
pub mod FlowAllocator
pub mod RsList
pub mod Shim
pub mod Normal
pub mod Manager
pub mod Api
pub mod Enrollment
