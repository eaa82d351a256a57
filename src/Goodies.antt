-- ===== src/Goodies.antt =====
-- lib/goodies.c: the globals, and the wrappers of firmware services. What the firmware's calls
-- answer is a parameter; of a call that the code only passes on, its arguments are modelled.
pub mod Keys
use gigaboot20x.Base.{
  get_or-append, get_or-append_left, get_or-take, get_or-drop, get_or-set_other, get_or-set,
  length-reverse, set-append, ltb, leb, ◌==◌, if◌then◌else◌, ltb→lt, lt→ltb, le→ltb, ltb→le,
  ==-refl, ==→eq, ne→==, tests, Bool-cases, Option-cases, ◌>>=◌, ◌>>◌, length, get_or, set, take,
  drop, replicate, length-append, length-take, length-drop, length-replicate, length-set,
  take-append, drop-append, take-length, take-append-drop, All, All-append, u8, u16, u32, u64,
  byte_at, slice, le16, le32, u16_at, u32_at, IsBytes, ℕ, zero, suc, ◌+◌, ◌-◌, ◌*◌, ◌/◌, ◌%◌, ◌^◌,
  ◌≤◌, ◌<◌, ◌≡◌, refl, sym, ap, ap₂, ◌∙◌, ◌≢◌, ◌↔◌, ◌⊎◌, inl, inr, Bool, true, false, not, ◌&&◌,
  ◌||◌, Option, none, some, List, [], ◌∷◌, ◌++◌, map, append-nil, append_assoc, arith,
}

-- gSys, gImg, gBS and gConOut.
pub record Globals : Type 0 where
  pub sys : ℕ
  pub img : ℕ
  pub boot_services : ℕ
  pub con_out : ℕ

-- EFI_SYSTEM_TABLE, as far as it is read here.
pub record SystemTable : Type 0 where
  pub address : ℕ
  pub boot_services : ℕ
  pub con_out : ℕ

unfoldable init_goodies : ℕ → SystemTable → Globals
init_goodies img sys = record {
  sys = sys.address;
  img = img;
  boot_services = sys.boot_services;
  con_out = sys.con_out;
}

-- The statuses of ReadKeyStroke, one for each call; what is left after the first 0. `none` is a loop
-- that goes on.
pub wait_any_key : List ℕ → Option (List ℕ)
wait_any_key [] = none
wait_any_key (status ∷ statuses) =
    let rest = wait_any_key statuses in if status == 0 then some statuses else rest

-- Fatal: the calls of Exit that it makes, with the image and the status, behind a key stroke.
unfoldable fatal : Globals → List ℕ → Option (ℕ × ℕ)
unfolding wait_any_key
fatal g keys = (wait_any_key keys >>= λ rest. some (g.img, 1))

abbrev no_path : List ℕ
no_path = b'<' ∷ b'N' ∷ b'o' ∷ b'P' ∷ b'a' ∷ b't' ∷ b'h' ∷ b'>' ∷ []

abbrev no_string : List ℕ
no_string = b'<' ∷ b'N' ∷ b'o' ∷ b'S' ∷ b't' ∷ b'r' ∷ b'i' ∷ b'n' ∷ b'g' ∷ b'>' ∷ []

module _ (device_path_from_handle : ℕ → Option ℕ) (device_path_to_str : ℕ → Option (List ℕ)) where
  abbrev path_to_string : Option ℕ → List ℕ
  path_to_string none = no_path
  path_to_string (some path) = elim (device_path_to_str path) [ none ↦ no_string | some str ↦ str ]

  unfoldable handle_to_string : ℕ → List ℕ
  handle_to_string h = path_to_string (device_path_from_handle h)

-- The arguments of gBS->OpenProtocol and gBS->CloseProtocol; only the first has attributes.
pub record ProtocolCall : Type 0 where
  pub handle : ℕ
  pub guid : ℕ
  pub agent : ℕ
  pub controller : ℕ

abbrev by_handle_protocol : ℕ
by_handle_protocol = 1

-- The agent is the image, and there is no controller.
unfoldable open_protocol : Globals → ℕ → ℕ → ProtocolCall × ℕ
open_protocol g h guid =
    (record { handle = h; guid = guid; agent = g.img; controller = 0 }, by_handle_protocol)

unfoldable close_protocol : Globals → ℕ → ℕ → ProtocolCall
close_protocol g h guid = record { handle = h; guid = guid; agent = g.img; controller = 0 }
