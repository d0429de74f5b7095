-- ===== src/Status/Lookup.antt =====
-- No message of src/libnvm/error.cpp is read out of bounds, and statuses give their messages.
use Prim.Native.String.{String}
use u_gds.Prelude.{
  ℕ, suc, ◌+◌, ◌-◌, ◌≡◌, refl, ◌∙◌, ap, true, false, Bool-cases, ◌&&◌, inl, inr, not, ◌||◌, Option,
  some, List, ltb, leb, ◌==◌, if◌then◌else◌, arith, get_elem?, get_elem?-in, length, ℤ,
}
use u_gds.Queue.{Cpl}
use u_gds.Status.{
  err_sct, err_sc, err_ok, err_pack, err_unpack_errno, err_unpack_sct, err_unpack_sc,
}
use u_gds.Status.Packing.{unpack-pack}
use u_gds.Status.Messages.{
  generic_status, generic_status_nvm_commands, command_specific_status,
  command_specific_status_nvm_commands, media_and_data_integrity_nvm_commands, lookup_string,
  nvm_strerror,
}

-- a message is found
Found : Option String → Type 0
Found m = (s : String) × (m ≡ some s)

-- a table from 0x80 on, and a message for the other codes
high_table :
    (high : List String) (other : String) (sc : ℕ)
    → Found (
        if leb 0x80 sc && leb sc (0x7f + length high)
        then get_elem? high (sc - 0x80)
        else some other)
unfolding Found
high_table high other sc = elim (Bool-cases (leb 0x80 sc && leb sc (0x7f + length high))) [
  | inl inside ↦ rw inside (get_elem?-in high (sc - 0x80) (ground arith))
  | inr outside ↦ rw outside (other, refl)
]

-- one table for small codes, one from 0x80 on, and a message for the others
two_tables :
    (low high : List String) (n : ℕ) (other : String) (sc : ℕ)
    → length low ≡ n
    → Found (
        if ltb sc n
        then get_elem? low sc
        else if leb 0x80 sc && leb sc (0x7f + length high)
        then get_elem? high (sc - 0x80)
        else some other)
unfolding Found
two_tables low high n other sc e = elim (Bool-cases (ltb sc n)) [
  | inl small ↦ rw small (get_elem?-in low sc (ground arith))
  | inr large ↦ rw large (high_table high other sc)
]

-- For every status code type and status code `lookup_string` returns a message: it never reads
-- past the end of one of its tables.
pub lookup_string-total : (sct sc : ℕ) → (s : String) × (lookup_string sct sc ≡ some s)
unfolding lookup_string Found
lookup_string-total sct sc = elim (Bool-cases (sct == 0)) [
  | inl generic ↦
      rw generic
        (two_tables generic_status generic_status_nvm_commands 0x20 "Unknown generic error" sc refl)
  | inr a ↦ elim (Bool-cases (sct == 1)) [
    | inl specific ↦
        rw (a, specific)
          (two_tables command_specific_status command_specific_status_nvm_commands 0x23
            "Unknown command specific error" sc refl)
    | inr b ↦ elim (Bool-cases (sct == 2)) [
      | inl media ↦
          rw (a, b, media)
            (high_table media_and_data_integrity_nvm_commands
              "Unknown media or data integrity error" sc)
      | inr c ↦ rw (a, b, c) ("Unknown status code type", refl)
    ]
  ]
]

differing :
    (sct sc : ℕ) → ((sct == 0) && (sc == 0)) ≡ false → (not (sct == 0) || not (sc == 0)) ≡ true
differing sct sc h = ground arith

strerror_of :
    (strerror : ℕ → String) (status : ℤ) (sct sc : ℕ)
    → err_unpack_sct status ≡ sct
    → err_unpack_sc status ≡ sc
    → nvm_strerror strerror status ≡ (
        if not (sct == 0) || not (sc == 0)
        then lookup_string sct sc
        else some (strerror (err_unpack_errno status)))
unfolding nvm_strerror
strerror_of strerror status sct sc e f = rw (e, f) refl

-- `nvm_strerror` of a packed status says what failed: of a completion that is not a success, with
-- no errno, the table's message of its status code type and code; of an errno that is not 0, the C
-- library's message of that errno.
pub nvm_strerror-err_pack :
    (strerror : ℕ → String) (cpl : Cpl) (err : ℕ)
    → err_ok cpl ≡ false
    → (nvm_strerror strerror (err_pack (some cpl) 0) ≡ lookup_string (err_sct cpl) (err_sc cpl))
      × (nvm_strerror strerror (err_pack (some cpl) (suc err)) ≡ some (strerror (suc err)))
unfolding err_ok
nvm_strerror-err_pack strerror cpl err failed =
    let (sct, sc, _, errno, sct0, sc0) = unpack-pack cpl err in
    (
      strerror_of strerror _ (err_sct cpl) (err_sc cpl) sct sc
          ∙ rw (differing (err_sct cpl) (err_sc cpl) failed) refl,
      strerror_of strerror _ 0 0 sct0 sc0 ∙ ap (λ k. some (strerror k)) errno,
    )
