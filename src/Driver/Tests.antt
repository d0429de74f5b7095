-- ===== src/Driver/Tests.antt =====
-- The driver at concrete inputs.
use u_gds.Prelude.{ℕ, refl, true, Option, some, List, [], ◌∷◌}
use u_gds.Dma.{Dma}
use u_gds.Driver.{DriverState, Call, open_driver, close_driver, register, deregister, calls}
use u_gds.Driver.Balance.{IsBalanced, calls-IsBalanced}

abbrev page : Dma
page = record {
  vaddr = 65536;
  is_local = true;
  contiguous = true;
  page_size = 4096;
  n_ioaddrs = 1;
  ioaddrs = 1048576 ∷ [];
}

abbrev map_device : ℕ → ℕ → ℕ × Option Dma
map_device base size = (0, some page)

abbrev opened : DriverState
opened = record { initialized = true; has_ctrl = true; registry = []; maps = 0; unmaps = 0 }

opened-IsBalanced : IsBalanced opened
opened-IsBalanced = record { counted = refl; closed = λ _. refl }

abbrev schedule : List Call
schedule =
    register 65536 4096 ∷ register 131072 4096 ∷ deregister 65536 ∷ close_driver ∷ open_driver ∷ []

calls-IsBalanced_example : IsBalanced (calls map_device schedule opened)
calls-IsBalanced_example = calls-IsBalanced map_device schedule opened opened-IsBalanced
