-- ===== src/N3000/Flash/Laws.antt =====
-- The theorems about the cards that are power cycled after their controllers are flashed.
use openshift_operator.Base.{
  ◌≡◌, refl, sym, ap, ◌∙◌, arith, Bool, true, false, ◌&&◌, ◌||◌, String, List, [], ◌∷◌, ◌++◌,
  contains, ◌==◌, eq_iff, Bool-cases, inl, inr, branch, Result, ok, handle, ◌>>=◌, bind-eq-ok,
  Ensures, if-Ensures, bind-Ensures, weaken-Ensures,
}
use openshift_operator.Api.Fpga.{N3000FortvilleStatus}
use openshift_operator.Fortville.{append_bmc, flash_mac, power_cycle}
use openshift_operator.N3000.{Node, nvm}
use openshift_operator.N3000.Nics.{get_inventory}
use openshift_operator.N3000.Flash.{
  cycle_flashed, has_mac, flash_result, flash_cards, flash_macs, flash,
}

-- Whether the card with an address has a controller with a MAC address.
unfoldable pub card_has : String → List N3000FortvilleStatus → String → Bool
card_has mac [] pci = false
card_has mac (i ∷ inv) pci = (has_mac mac i.nics && i.n3000_pci == pci) || card_has mac inv pci

-- Whether it has one with one of the MAC addresses.
unfoldable pub card_has_any : List String → List N3000FortvilleStatus → String → Bool
card_has_any [] inv pci = false
card_has_any (m ∷ ms) inv pci = card_has m inv pci || card_has_any ms inv pci

unfoldable pub Distinct : List String → Type 0
Distinct [] = Unit
Distinct (x ∷ xs) = (contains xs x ≡ false) × Distinct xs

contains-append :
    (xs : List String) (y k : String) → contains (xs ++ (y ∷ [])) k ≡ contains xs k || y == k
unfolding contains
contains-append [] y k = ground arith
contains-append (x ∷ xs) y k = ground (arith, contains-append xs y k)

Distinct-append :
    (xs : List String) (y : String)
    → Distinct xs
    → contains xs y ≡ false
    → Distinct (xs ++ (y ∷ []))
unfolding Distinct contains
Distinct-append [] y d h = (refl, tt)
Distinct-append (x ∷ xs) y (hx, d) h = (
  ground (arith, contains-append xs y x, hx, h, eq_iff x y, eq_iff y x),
  Distinct-append xs y d (ground (arith, h)),
)

contains_of_eq :
    (xs : List String) (y k : String)
    → contains xs y ≡ true
    → (y == k) ≡ true
    → contains xs k ≡ true
contains_of_eq xs y k h e = ap (contains xs) (sym (ground (arith, e, eq_iff y k))) ∙ h

append_bmc_lem :
    (bs : List String) (p : String)
    → Distinct bs
    → Distinct (append_bmc bs p)
      × ((k : String) → contains (append_bmc bs p) k ≡ contains bs k || p == k)
unfolding append_bmc
append_bmc_lem bs p d = elim (Bool-cases (contains bs p)) [
  | inl h ↦ rw h (
    d,
    (λ k. elim (Bool-cases (p == k)) [
      | inl e ↦ ground (arith, e, contains_of_eq bs p k h e)
      | inr e ↦ ground (arith, e)
    ]),
  )
  | inr h ↦ rw h (Distinct-append bs p d h, contains-append bs p)
]

module _ (N : Node) (dry_run : Bool) where
  open N use {State}

  -- The list is without repetitions, and it has what it had and the cards of a test.
  Grows : List String → (String → Bool) → List String → State → Type 0
  Grows bs test bs' s = Distinct bs' × ((k : String) → contains bs' k ≡ contains bs k || test k)

  flash_cards-Grows :
      (mac : String) (inv : List N3000FortvilleStatus) (bs : List String)
      → Distinct bs
      → Ensures (Grows bs (card_has mac inv)) (flash_cards N dry_run mac inv bs)
  unfolding Grows flash_cards card_has
  flash_cards-Grows mac [] bs d = λ s bs' h. (ground (arith, h, d), λ k. ground (arith, h))
  flash_cards-Grows mac (i ∷ inv) bs d =
      let (d1, c1) = append_bmc_lem bs i.n3000_pci d in
      let flashed = flash_cards-Grows mac inv (append_bmc bs i.n3000_pci) d1 in
      let skipped = flash_cards-Grows mac inv bs d in
      let P = Grows bs (card_has mac (i ∷ inv)) in
      if-Ensures P (has_mac mac i.nics) _ (flash_cards N dry_run mac inv bs)
        (λ e.
          bind-Ensures P (λ s. flash_result N (flash_mac (nvm N) mac dry_run s))
            (λ _. flash_cards N dry_run mac inv (append_bmc bs i.n3000_pci))
            (λ _.
              weaken-Ensures (Grows (append_bmc bs i.n3000_pci) (card_has mac inv)) P
                (flash_cards N dry_run mac inv (append_bmc bs i.n3000_pci))
                (λ bs' s (d', c'). (d', λ k. ground (arith, c' k, c1 k, e))) flashed))
        (λ e.
          weaken-Ensures (Grows bs (card_has mac inv)) P (flash_cards N dry_run mac inv bs)
            (λ bs' s (d', c'). (d', λ k. ground (arith, c' k, e))) skipped)

  flash_macs-Grows :
      (ms : List String) (inv : List N3000FortvilleStatus) (bs : List String)
      → Distinct bs
      → Ensures (Grows bs (card_has_any ms inv)) (flash_macs N dry_run ms inv bs)
  unfolding Grows flash_macs card_has_any
  flash_macs-Grows [] inv bs d s bs' h = (ground (arith, h, d), λ k. ground (arith, h))
  flash_macs-Grows (m ∷ ms) inv bs d s bs' h =
      let (bs1, e1, eq) =
        bind-eq-ok (flash_cards N dry_run m inv bs) (λ x. flash_macs N dry_run ms inv x) s h in
      let (d1, c1) = flash_cards-Grows m inv bs d s bs1 e1 in
      let (d2, c2) =
        flash_macs-Grows ms inv bs1 d1 (flash_cards N dry_run m inv bs s).1 bs' (rw eq at h) in
      (d2, λ k. ground (arith, c1 k, c2 k))

  cycle_flashed-power_cycle :
      (bs : List String) (s : State)
      → cycle_flashed N dry_run bs s ≡ power_cycle (nvm N) bs dry_run s
  unfolding cycle_flashed power_cycle
  cycle_flashed-power_cycle [] s = refl
  cycle_flashed-power_cycle (b ∷ bs) s = refl

  flash_read :
      (macs : List String) (inv : List N3000FortvilleStatus) (s t : State)
      → get_inventory N s ≡ (ok inv, t)
      → flash N dry_run macs s ≡ (flash_macs N dry_run macs inv [] >>= cycle_flashed N dry_run) t
  unfolding flash
  flash_read macs inv s t read = rw (read, handle, branch) refl

  -- Where the inventory can be read and `flash` returns no error, it ends with the power cycle of a
  -- list of cards, in which no card occurs twice and which has just the cards of the inventory with a
  -- controller that has one of the MAC addresses of the resource. No card is power cycled before all
  -- controllers are flashed.
  pub flash_cycles :
      (macs : List String) (inv : List N3000FortvilleStatus) (s t : State)
      → get_inventory N s ≡ (ok inv, t)
      → (flash N dry_run macs s).0 ≡ ok tt
      → (bmcs : List String) × (flash N dry_run macs s
          ≡ power_cycle (nvm N) bmcs dry_run (flash_macs N dry_run macs inv [] t).1)
        × Distinct bmcs
        × ((k : String) → contains bmcs k ≡ card_has_any macs inv k)
  unfolding Grows contains Distinct
  flash_cycles macs inv s t read h =
      let at_read = flash_read macs inv s t read in
      let (bmcs, e, eq) =
        bind-eq-ok (flash_macs N dry_run macs inv []) (cycle_flashed N dry_run) t
          (sym (ap (λ (r : Result (Unit {0}) × State). r.0) at_read) ∙ h) in
      let (d, c) = flash_macs-Grows macs inv [] tt t bmcs e in
      (bmcs, at_read ∙ eq ∙ cycle_flashed-power_cycle bmcs _, d, λ k. ground (arith, c k))
