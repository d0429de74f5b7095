-- ===== src/Status/Tests.antt =====
-- Statuses at concrete inputs.
use u_gds.Prelude.{◌≡◌}
use u_gds.Queue.{Cpl}
use u_gds.Status.{err_sct, err_sc, err_pack, err_unpack_errno, err_unpack_sct, err_unpack_sc}
use u_gds.Status.Packing.{unpack-pack}
use u_gds.Status.Messages.{lookup_string}
use u_gds.Status.Lookup.{lookup_string-total}
use Prim.Native.String.{String}
use mathlib.Core.Option.{some}

-- an invalid queue identifier
abbrev failed : Cpl
failed = record { dword0 = 0; dword1 = 0; dword2 = 0; dword3 = 33751040 }

unpack-pack_example :
    (err_unpack_sct (err_pack (some failed) 0) ≡ err_sct failed)
    × (err_unpack_sc (err_pack (some failed) 0) ≡ err_sc failed)
    × (err_unpack_errno (err_pack (some failed) 0) ≡ 0)
    × (err_unpack_errno (err_pack (some failed) 22) ≡ 22)
    × (err_unpack_sct (err_pack (some failed) 22) ≡ 0)
    × (err_unpack_sc (err_pack (some failed) 22) ≡ 0)
unpack-pack_example = unpack-pack failed 21

lookup_string-total_example : (s : String) × (lookup_string 1 34 ≡ some s)
lookup_string-total_example = lookup_string-total 1 34
