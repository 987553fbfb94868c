-- ===== src/Fortville/Steps.antt =====
-- The turns of the loop of `flashMac`.
use openshift_operator.Base.{
  ℕ, suc, ◌≡◌, ap, fun_ext, arith, Bool, true, String, [], ◌∷◌, Option, some, is_some, Result, err,
  handle,
}
use openshift_operator.Fortville.{
  plain_mac, Nvm, update_out_file, config_file, get_device_update_from_file, nvmupdate_exec,
  check_update, flash_turns, flash_mac,
}

module _ (N : Nvm) (mac : String) (dry_run : Bool) where
  open N use {State}

  abbrev Turn : Type 0
  Turn = State → Option (Result (Unit {0})) × State

  -- One turn, from what follows its two commands.
  turn : Turn → Turn
  turn after =
      handle (nvmupdate_exec N dry_run ("-i" ∷ []))
        (λ _.
          handle
            (nvmupdate_exec N dry_run (
              "-u"
              ∷ "-m"
              ∷ plain_mac mac
              ∷ "-c"
              ∷ config_file
              ∷ "-o"
              ∷ update_out_file
              ∷ "-l"
              ∷ []))
            (λ _. after) (λ e s. (some (err e), s)))
        (λ e s. (some (err e), s))

  turn_ends :
      (after : Turn)
      → ((s : State) → is_some (after s).0 ≡ true)
      → (s : State) → is_some (turn after s).0 ≡ true
  unfolding turn
  turn_ends after h s =
      let t : State = (nvmupdate_exec N dry_run ("-i" ∷ []) s).1 in
      ground (
        arith,
        h
            (nvmupdate_exec N dry_run
              ("-u"
                ∷ "-m"
                ∷ plain_mac mac
                ∷ "-c"
                ∷ config_file
                ∷ "-o"
                ∷ update_out_file
                ∷ "-l"
                ∷ [])
              t).1,
      )

  -- After the second turn there is no other.
  last_turn_ends :
      (again : Turn) (s : State) → is_some (check_update N mac dry_run again 2 s).0 ≡ true
  unfolding check_update
  last_turn_ends again s = ground arith

  last_turn_same :
      (a b : Turn) (s : State) → check_update N mac dry_run a 2 s ≡ check_update N mac dry_run b 2 s
  unfolding check_update
  last_turn_same a b s = ground arith

  first_turn_ends :
      (again : Turn)
      → ((s : State) → is_some (again s).0 ≡ true)
      → (s : State) → is_some (check_update N mac dry_run again 1 s).0 ≡ true
  unfolding check_update
  first_turn_ends again h s = ground (arith, h (get_device_update_from_file N update_out_file s).1)

  second_turn : (n : ℕ) → flash_turns N mac dry_run (suc n) 1 ≡ flash_turns N mac dry_run 1 1
  unfolding flash_turns turn
  second_turn n = ap turn (fun_ext (λ s. last_turn_same _ _ s))

  -- From any state, `flashMac` returns after at most two turns of its loop: with two turns it has a
  -- result, and with more it does the same.
  pub flash_mac_ends :
      (n : ℕ) (s : State)
      → (is_some (flash_mac N mac dry_run s).0 ≡ true)
        × (flash_turns N mac dry_run (suc (suc n)) 0 s ≡ flash_mac N mac dry_run s)
  unfolding flash_mac flash_turns turn
  flash_mac_ends n s = (
    turn_ends _ (first_turn_ends _ (turn_ends _ (last_turn_ends _))) s,
    ap (λ (g : Turn). turn (check_update N mac dry_run g 1) s) (second_turn n),
  )
