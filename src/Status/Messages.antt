-- ===== src/Status/Messages.antt =====
-- The messages of src/libnvm/error.cpp. An element read out of bounds is `none`.
use Prim.Native.String.{String}
use u_gds.Prelude.{
  ℕ, ◌-◌, ◌&&◌, not, ◌||◌, Option, some, List, [], ◌∷◌, ltb, leb, ◌==◌, if◌then◌else◌, get_elem?, ℤ,
}
use u_gds.Status.{err_unpack_errno, err_unpack_sct, err_unpack_sc}

abbrev pub generic_status : List String
generic_status =
    "Success" ∷ "Invalid command opcode" ∷ "Invalid field in command" ∷ "Command ID conflict"
    ∷ "Data transfer error" ∷ "Commands aborted due to power loss notification" ∷ "Internal error"
    ∷ "Command abort requested" ∷ "Command aborted due to SQ deletion"
    ∷ "Command aborted due to failed fused command" ∷ "Command aborted due to missing fused command"
    ∷ "Invalid namespace or format" ∷ "Command sequence error" ∷ "Invalid SGL segment descriptor"
    ∷ "Invalid number of SQL descriptors" ∷ "Data SGL length invalid"
    ∷ "Metadata SGL length invalid" ∷ "SGL descriptor type invalid"
    ∷ "Invalid use of controller memory buffer" ∷ "PRP offset invalid"
    ∷ "Atomic write unit exceeded" ∷ "Operation denied" ∷ "SGL offset invalid" ∷ "Unknown/reserved"
    ∷ "Host identifier inconsistent format" ∷ "Keep alive timer expired"
    ∷ "Keep alive timer invalid" ∷ "Command aborted due to preempt and abort" ∷ "Sanitize failed"
    ∷ "Sanitize in progress" ∷ "SGL data block granularity invalid"
    ∷ "Command not supported for queue in CMB" ∷ []

abbrev pub generic_status_nvm_commands : List String
generic_status_nvm_commands =
    "LBA out of range" ∷ "Capacity exceeded" ∷ "Namespace not ready" ∷ "Reservation conflict"
    ∷ "Format in progress" ∷ []

abbrev pub command_specific_status : List String
command_specific_status =
    "Completion queue invalid" ∷ "Invalid queue identifier" ∷ "Invalid queue size"
    ∷ "Abort command limit exceeded" ∷ "Unknown/reserved"
    ∷ "Asynchronous event request limit exceeded" ∷ "Invalid firmware slot"
    ∷ "Invalid firmware image" ∷ "Invalid interrupt vector" ∷ "Invalid log page" ∷ "Invalid format"
    ∷ "Firmware activation requires conventional reset" ∷ "Invalid queue deletion"
    ∷ "Feature identifier not saveable" ∷ "Feature not changeable"
    ∷ "Feature not namespace specific" ∷ "Firmware activation requires NVM subsystem reset"
    ∷ "Firmware activation requires reset" ∷ "Firmware activation requires maximum time violation"
    ∷ "Firmware activation prohibited" ∷ "Overlapping range" ∷ "Namespace insufficient capacity"
    ∷ "Namespace identifier unavailable" ∷ "Unknown/reserved" ∷ "Namespace already attached"
    ∷ "Namespace is private" ∷ "Namespace not attached" ∷ "Thin provisioning not supported"
    ∷ "Controller list invalid" ∷ "Device self-test in progress" ∷ "Boot partition write prohibited"
    ∷ "Invalid controller identifier" ∷ "Invalid secondary controller state"
    ∷ "Invalid number of controller resources" ∷ "Invalid resource identifier" ∷ []

abbrev pub command_specific_status_nvm_commands : List String
command_specific_status_nvm_commands =
    "Conflicting attributes" ∷ "Invalid protection information"
    ∷ "Attempted write to read only range" ∷ []

abbrev pub media_and_data_integrity_nvm_commands : List String
media_and_data_integrity_nvm_commands =
    "Write fault" ∷ "Unrecovered read error" ∷ "End-to-end guard check error"
    ∷ "End-to-end application tag check error" ∷ "End-to-end reference tag check error"
    ∷ "Compare failure" ∷ "Access denied" ∷ "Deallocated or unwritten logical block" ∷ []

-- `lookup_string`
unfoldable pub lookup_string : (status_code_type status_code : ℕ) → Option String
lookup_string sct sc =
    if sct == 0
    then (if ltb sc 0x20
        then get_elem? generic_status sc
        else if leb 0x80 sc && leb sc 0x84
        then get_elem? generic_status_nvm_commands (sc - 0x80)
        else some "Unknown generic error")
    else if sct == 1
    then (if ltb sc 0x23
        then get_elem? command_specific_status sc
        else if leb 0x80 sc && leb sc 0x82
        then get_elem? command_specific_status_nvm_commands (sc - 0x80)
        else some "Unknown command specific error")
    else if sct == 2
    then (if leb 0x80 sc && leb sc 0x87
        then get_elem? media_and_data_integrity_nvm_commands (sc - 0x80)
        else some "Unknown media or data integrity error")
    else some "Unknown status code type"

-- `nvm_strerror`, with the C library's `strerror`
unfoldable pub nvm_strerror : (strerror : ℕ → String) → (status : ℤ) → Option String
nvm_strerror strerror status =
    let sct = err_unpack_sct status in
    let sc = err_unpack_sc status in
    if not (sct == 0) || not (sc == 0)
    then lookup_string sct sc
    else some (strerror (err_unpack_errno status))
