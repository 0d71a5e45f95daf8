-- ===== src/Ui/Nav.antt =====
-- The screens and the softkeys: `Nav`, `next_nav` and `remap_fkey` of src/baler-ui/src/main.rs.
use claas_rollant.Prelude.{◌≡◌, ◌≢◌, ◌↔◌, refl, ℕ, arith}
use claas_rollant.Ipc.{Mode, fault, ethernet}

-- The keys of the third-party HAL that the panel names; it ignores the rest.
pub data Button : Type 0 where
  f1 f2 f3 f4 f5 f6 up down left right : Button
  unused : ℕ → Button

pub data ButtonEvent : Type 0 where
  pressed released : Button → ButtonEvent

-- The key arrangement of the device: the physical key to the softkey above it.
unfoldable pub remap_fkey : Button → Button
remap_fkey f1 = f4
remap_fkey f2 = f3
remap_fkey f3 = f5
remap_fkey f4 = f2
remap_fkey f5 = f6
remap_fkey f6 = f1
remap_fkey b = b

pub data Nav : Type 0 where
  main service ethernet_screen fault_screen io_test : Nav

unfoldable pub next_nav : Nav → Mode → Nav
next_nav service fault = service
next_nav _ fault = fault_screen
next_nav _ ethernet = ethernet_screen
next_nav fault_screen _ = main
next_nav ethernet_screen _ = main
next_nav n _ = n

remap_onto : (b : Button) → (a : Button) × (remap_fkey a ≡ b)
unfolding remap_fkey
remap_onto f1 = (f6, refl)
remap_onto f2 = (f4, refl)
remap_onto f3 = (f2, refl)
remap_onto f4 = (f1, refl)
remap_onto f5 = (f3, refl)
remap_onto f6 = (f5, refl)
remap_onto up = (up, refl)
remap_onto down = (down, refl)
remap_onto left = (left, refl)
remap_onto right = (right, refl)
remap_onto (unused n) = (unused n, refl)

remap_injective : (a b : Button) → remap_fkey a ≡ remap_fkey b → a ≡ b
unfolding remap_fkey
remap_injective a b h = grind arith

-- No two keys become the same softkey, and every softkey has a key.
pub remap_fkey_bijective :
    ((a b : Button) → remap_fkey a ≡ remap_fkey b → a ≡ b)
    × ((b : Button) → (a : Button) × (remap_fkey a ≡ b))
unfolding remap_fkey
remap_fkey_bijective = (remap_injective, remap_onto)

-- The Ethernet screen is shown just in the Ethernet mode, the fault screen just in a fault that does not
-- find the operator in the Service menu, and no mode but Ethernet takes the operator out of that menu.
pub next_nav_iff :
    (n : Nav) (m : Mode)
    → ((next_nav n m ≡ ethernet_screen) ↔ (m ≡ ethernet))
      × ((next_nav n m ≡ fault_screen) ↔ ((m ≡ fault) × (n ≢ service)))
      × (m ≢ ethernet → next_nav service m ≡ service)
unfolding next_nav
next_nav_iff n m = grind arith
