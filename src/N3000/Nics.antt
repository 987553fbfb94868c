-- ===== src/N3000/Nics.antt =====
-- N3000/pkg/daemon/fortvillemanager.go: `getInventory`, the network controllers of the N3000 cards.
use openshift_operator.Base.{
  ℕ, false, ◌||◌, String, ◌<>◌, List, [], ◌∷◌, ◌++◌, ◌==◌, Option, none, some, split, failure,
  message, Result, ok, err, Exec, pure, raise, handle, ◌>>=◌, if◌then◌else◌,
}
use openshift_operator.Api.Fpga.{FortvilleStatus, N3000FortvilleStatus}
use openshift_operator.Regexp.{
  Piece, piece, once, star, plus, plus_lazy, is_space, is_any, is_char, is_digit, is_lower,
  is_lower_hex, match_all, group_text, submatches2,
}
use openshift_operator.N3000.{Node, run_exec}
use openshift_operator.N3000.Bmc.{get_n3000_devices}

-- A hexadecimal digit of a group.
abbrev hex : ℕ → Piece
hex group = piece is_lower_hex once group

abbrev byte : ℕ → List Piece
byte group = hex group ∷ hex group ∷ []

abbrev sign : ℕ → ℕ → Piece
sign c group = piece (is_char c) once group

-- `^([a-f0-9]{4}):([a-f0-9]{2}):([a-f0-9]{2})\.([012357])$`
unfoldable pub pci_regex : List Piece
pci_regex =
    byte 1
    ++ (byte 1
        ++ (sign b':' 0
            ∷ (byte 2
                ++ (sign b':' 0
                    ∷ (byte 3
                        ++ (sign b'.' 0
                            ∷ (piece
                                  (λ c.
                                    is_char b'0' c
                                    || (is_char b'1' c
                                        || (is_char b'2' c
                                            || (is_char b'3' c
                                                || (is_char b'5' c || is_char b'7' c)))))
                                  once 4
                                ∷ [])))))))

-- `^(?:\s*)([a-z0-9]+)(?:\s*)([a-f0-9]{2}:…:[a-f0-9]{2})$`, with six bytes.
unfoldable pub mactest_regex : List Piece
mactest_regex =
    piece is_space star 0
    ∷ piece (λ c. is_lower c || is_digit c) plus 1
    ∷ piece is_space star 0
    ∷ (byte 2
        ++ (sign b':' 2
            ∷ (byte 2
                ++ (sign b':' 2
                    ∷ (byte 2
                        ++ (sign b':' 2
                            ∷ (byte 2 ++ (sign b':' 2 ∷ (byte 2 ++ (sign b':' 2 ∷ byte 2))))))))))

-- `^([a-z-]+?)(?:\s*:\s)(.+)$`
unfoldable pub ethtool_regex : List Piece
ethtool_regex =
    piece (λ c. is_lower c || is_char b'-' c) plus_lazy 1
    ∷ piece is_space star 0
    ∷ sign b':' 0
    ∷ piece is_space once 0
    ∷ piece is_any plus 2
    ∷ []

-- The four parts of a PCI address.
pub record PciParts : Type 0 where
  pub segment : String
  pub bus : String
  pub device : String
  pub function : String

unfoldable pub pci_parts : String → Option PciParts
pci_parts pci = elim (match_all pci_regex pci) [
  | none ↦ none
  | some ts ↦ some (record {
    segment = group_text 1 pci_regex ts;
    bus = group_text 2 pci_regex ts;
    device = group_text 3 pci_regex ts;
    function = group_text 4 pci_regex ts;
  })
]

-- The switch of `addEthtoolInfo`.
unfoldable pub set_info : String × String → FortvilleStatus → FortvilleStatus
set_info (label, value) fs =
    if label == "bus-info"
    then record fs { pci_addr = value }
    else if label == "firmware-version"
    then record fs { version = value }
    else fs

unfoldable pub set_infos : List String → FortvilleStatus → FortvilleStatus
set_infos [] fs = fs
set_infos (line ∷ lines) fs = elim (submatches2 ethtool_regex line) [
  | none ↦ set_infos lines fs
  | some m ↦ set_infos lines (set_info m fs)
]

-- The name in the first record of the listing, which is at its fourth place.
unfoldable pub set_name : List String → FortvilleStatus → FortvilleStatus
set_name (a ∷ (b ∷ (c ∷ (name ∷ rest)))) fs = record fs { name = name }
set_name fields fs = fs

module _ (N : Node) where
  open N use {State}

  -- The structure that the pointer names stays as it was where there is an error.
  unfoldable pub add_ethtool_info : String → FortvilleStatus → Exec State FortvilleStatus
  add_ethtool_info if_name fs = run_exec N "ethtool" ("-i" ∷ if_name ∷ []) false >>= λ out.
      pure (set_infos (split out "\n") fs)

  -- What `addDeviceName` makes of the records.
  unfoldable pub name_of_records :
      String → Result (List (List String)) → FortvilleStatus → Result FortvilleStatus
  name_of_records out (err e) fs =
      err (failure ("Failed to parse CSV because: " <> (message e <> (". Input: " <> out))))
  name_of_records out (ok []) fs = err (failure "No entries in CSV output from lspci")
  name_of_records out (ok (fields ∷ records)) fs = ok (set_name fields fs)

  unfoldable pub add_device_name : FortvilleStatus → Exec State FortvilleStatus
  add_device_name fs =
      N.combined_output "bash" ("-c" ∷ ("lspci -Dm | grep -i " <> fs.pci_addr) ∷ []) >>= λ out s.
      (name_of_records out (N.read_csv out) fs, s)

  -- The errors of the two commands for a controller are only logged.
  unfoldable pub with_name : FortvilleStatus → State → FortvilleStatus × State
  with_name fs = handle (add_device_name fs) (λ fs' s. (fs', s)) (λ e s. (fs, s))

  unfoldable pub nic_status : String → String → State → FortvilleStatus × State
  nic_status if_name mac =
      let fs : FortvilleStatus = record { name = ""; pci_addr = ""; version = ""; mac = mac } in
      handle (add_ethtool_info if_name fs) with_name (λ e. with_name fs)

  unfoldable pub nic_statuses : List String → State → List FortvilleStatus × State
  nic_statuses [] s = ([], s)
  nic_statuses (line ∷ lines) s = elim (submatches2 mactest_regex line) [
    | none ↦ nic_statuses lines s
    | some (if_name, mac) ↦
        let (fs, s1) = nic_status if_name mac s in
        let (rest, s2) = nic_statuses lines s1 in (fs ∷ rest, s2)
  ]

  abbrev pub mactest : PciParts → Exec State String
  mactest p =
      run_exec N "fpgadiag"
        ("-m" ∷ "mactest" ∷ "-S" ∷ p.segment ∷ "-B" ∷ p.bus ∷ "-D" ∷ p.device ∷ "-F" ∷ p.function
          ∷ [])
        false

  unfoldable pub get_n3000_nics : String → Exec State (List FortvilleStatus)
  get_n3000_nics bmc_pci = elim (pci_parts bmc_pci) [
    | none ↦ raise (failure ("Invalid BMC PCI address: " <> bmc_pci))
    | some parts ↦
        mactest parts >>= λ out s. let (nics, s') = nic_statuses (split out "\n") s in (ok nics, s')
  ]

  -- The loop of `getInventory`; its callers do not use what it has where there is an error.
  unfoldable pub card_statuses : List String → Exec State (List N3000FortvilleStatus)
  card_statuses [] = pure []
  card_statuses (d ∷ ds) =
      let rest = card_statuses ds in
      get_n3000_nics d >>= λ nics.
      rest >>= λ cards. pure (record { n3000_pci = d; nics = nics } ∷ cards)

  unfoldable pub get_inventory : Exec State (List N3000FortvilleStatus)
  get_inventory = get_n3000_devices N >>= card_statuses
