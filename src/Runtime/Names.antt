-- ===== src/Runtime/Names.antt =====
-- Names and arguments that internal/runtime/cloudhypervisor makes of a machine's name and sizes
-- (runtime.go, network.go, images.go).
use fascinate.Base.{
  ℕ, ◌/◌, ◌*◌, Bool, not, ◌||◌, ◌&&◌, [], ◌∷◌, ◌++◌, leb, ◌==◌, take, if◌then◌else◌,
}
use fascinate.Base.Word.{is_positive}
use fascinate.Base.Text.{Text, codes, trim_space, to_lower, is_empty, replace_code}
use fascinate.Size.{decimal}
use fascinate.Result.{Result, ok, size_not_positive, refuse_if, ◌>>◌, ◌>>=◌}

abbrev is_lower_or_digit : ℕ → Bool
is_lower_or_digit c = (leb b'a' c && leb c b'z') || (leb b'0' c && leb c b'9')

letters_and_digits : Text → Text
letters_and_digits [] = []
letters_and_digits (c ∷ s) =
    let rest = letters_and_digits s in if is_lower_or_digit c then c ∷ rest else rest

or_else : Text → Text → Text
or_else [] fallback = fallback
or_else (c ∷ s) fallback = c ∷ s

-- compactTapName
unfoldable pub compact_tap_name : Text → Text
unfolding letters_and_digits or_else
compact_tap_name name = or_else (letters_and_digits (to_lower (trim_space name))) (codes "vm")

-- namespaceName
unfoldable pub namespace_name : Text → Text
namespace_name name = codes "fscns" ++ compact_tap_name name

-- machinePublicHost
unfoldable pub machine_public_host : Text → Text → Text
machine_public_host name base_domain =
    if is_empty (trim_space name)
    then trim_space base_domain
    else if is_empty (trim_space base_domain)
    then trim_space name
    else trim_space name ++ codes "." ++ trim_space base_domain

-- shellQuote
unfoldable pub shell_quote : Text → Text
shell_quote value = codes "'" ++ replace_code b'\'' (codes "'\\''") value ++ codes "'"

kept_in_version : Text → Text
kept_in_version [] = []
kept_in_version (c ∷ s) =
    let rest = kept_in_version s in
    if is_lower_or_digit c || c == b'-' || c == b'_' then c ∷ rest else rest

-- sanitizeImageVersion
unfoldable pub sanitize_image_version : Text → Text
unfolding kept_in_version or_else
sanitize_image_version value =
    or_else (kept_in_version (trim_space (to_lower value))) (codes "image")

-- The parser of sizes of this package, and the last six hexadecimal digits of an FNV hash.
module _ (parse_byte_size : Text → Result ℕ) where
  -- cloudHypervisorMemoryArg
  unfoldable pub cloud_hypervisor_memory_arg : Text → Result Text
  cloud_hypervisor_memory_arg value = do
    bytes ← parse_byte_size value
    refuse_if (not (is_positive bytes) || bytes / (1024 * 1024) == 0) size_not_positive
    ok (codes "size=" ++ decimal (bytes / (1024 * 1024)) ++ codes "M")

  -- qemuImgSizeArg
  unfoldable pub qemu_img_size_arg : Text → Result Text
  qemu_img_size_arg value = do
    bytes ← parse_byte_size value
    refuse_if (not (is_positive bytes)) size_not_positive
    ok (decimal bytes)

module _ (hash_suffix : Text → Text) where
  -- tapDeviceName, hostVethName and namespacePeerVethName
  unfoldable pub tap_device_name : Text → Text
  tap_device_name name =
      codes "fsc" ++ take 4 (compact_tap_name name) ++ hash_suffix (compact_tap_name name)

  unfoldable pub host_veth_name : Text → Text
  host_veth_name name =
      codes "fsv" ++ take 4 (compact_tap_name name) ++ hash_suffix (compact_tap_name name)

  unfoldable pub namespace_peer_veth_name : Text → Text
  namespace_peer_veth_name name =
      codes "fsn"
      ++ take 4 (compact_tap_name name)
      ++ hash_suffix (codes "peer:" ++ compact_tap_name name)
