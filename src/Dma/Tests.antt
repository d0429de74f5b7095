-- ===== src/Dma/Tests.antt =====
-- Mappings at concrete inputs.
use mathlib.Core.Option.{some-injective}
use mathlib.Core.Path.{subst}
use u_gds.Prelude.{ℕ, ◌≡◌, refl, true, false, none, some, List, [], ◌∷◌, length, arith}
use u_gds.Dma.{Dma, VaRange, populate_handle}
use u_gds.Dma.Populate.{AddressesOf, all_follow, populate_handle-lists}
use u_gds.Dma.Lifetime.{Held, Host, dma_init}
use u_gds.Dma.Balance.{Balanced, dma_init-Balanced}
use u_gds.Dma.Given.{IsGiven, dma_map_given, dma_map_given-IsGiven}

-- two pages of 64 KiB on a controller with pages of 4 KiB
abbrev range : VaRange
range = record { remote = true; vaddr = 65536; page_size = 65536; n_pages = 2 }

abbrev addresses : List ℕ
addresses = 1048576 ∷ 4194304 ∷ []

populate_handle-lists_example :
    (dma : Dma) × (populate_handle range 4096 false addresses ≡ some dma)
    × (dma.page_size ≡ 4096)
    × (length dma.ioaddrs ≡ 32)
    × (dma.n_ioaddrs ≡ length dma.ioaddrs)
    × (dma.contiguous ≡ all_follow 4096 none dma.ioaddrs)
    × AddressesOf 4096 65536 addresses 0 dma.ioaddrs
populate_handle-lists_example =
    populate_handle-lists range 4096 false addresses (omega arith) (omega arith) refl (omega arith)

abbrev back_end : VaRange → ℕ × List ℕ
back_end va = (0, addresses)

abbrev host : Host
host = record {
  ctrl_ref = true;
  map_errno = 0;
  mutex = 0;
  container_memory = true;
  addresses_memory = true;
  map_range = some back_end;
}

abbrev nothing : Held
nothing = record { ctrl_refs = 1; maps = 0; containers = 0; mapped = 0; ranges = 1 }

dma_init-Balanced_example : Balanced nothing (dma_init host 4096 range true nothing)
dma_init-Balanced_example =
    dma_init-Balanced host 4096 range nothing true (omega arith) (omega arith) (omega arith)
      (λ f e good. subst (λ g. length (g range).1 ≡ 2) (some-injective back_end f e) refl)

dma_map_given-IsGiven_example :
    IsGiven 4096 range addresses nothing
      (dma_map_given host 4096 true range (some addresses) nothing)
dma_map_given-IsGiven_example =
    dma_map_given-IsGiven host 4096 range addresses nothing (omega arith) (omega arith) refl
      (omega arith) true
