-- ===== src/DeviceChecks.antt =====
-- check.py: the checks on the end device and on the status of its resource.
pub mod Status
use cactus_runner.Prelude.{
  ℕ, zero, suc, ◌+◌, ◌-◌, ◌*◌, ◌/◌, ◌%◌, ◌^◌, String, Bool, true, false, not, ◌&&◌, ◌||◌, List, [],
  ◌∷◌, Option, none, some, leb, ◌==◌, if◌then◌else◌,
}
use cactus_runner.Prelude.Int.{ℤ, pos, negsuc, eqb_ℤ}
use cactus_runner.Prelude.Dict
use cactus_runner.Prelude.Dict.{Dict}
use cactus_runner.Prelude.Strings
use cactus_runner.Prelude.Strings.{texts, drop}
use cactus_runner.Exec.{Result, ok, err, pure, lift, on_option, ◌>>=◌}
use cactus_runner.Definitions.{
  bool, text, Resolved, scalar, of_int, of_optional_int, is_none, is_truthy,
}
use cactus_runner.Models.{aggregator, ActiveTestProcedure, CheckResult}
use cactus_runner.Services.{Services, Site, SiteDerStatus}
use cactus_runner.SoftChecker.{pass, fail}
use cactus_runner.EnvoyCommon.{Query, query_active_site}
use cactus_runner.Actions.Params.{as_optional_int, parameter}
use Prim.Native.Char.{code}

-- a & b, of natural numbers. A number has fewer bits than its value.
unfoldable pub bitand_upto : (bits a b : ℕ) → ℕ
bitand_upto zero a b = 0
bitand_upto (suc n) a b = elim (a == 0) [
  | true ↦ 0
  | false ↦ a % 2 * (b % 2) + 2 * bitand_upto n (a / 2) (b / 2)
]

unfoldable pub bitand : ℕ → ℕ → ℕ
unfolding bitand_upto
bitand a b = bitand_upto a a b

-- bool(value & (1 << nth_bit)), in two's complement
unfoldable pub bit_of : ℤ → ℕ → Bool
bit_of (pos n) nth_bit = n / 2 ^ nth_bit % 2 == 1
bit_of (negsuc n) nth_bit = n / 2 ^ nth_bit % 2 == 0

-- Only a Boolean can be identical to the bit.
unfoldable pub is_nth_bit_set_properly : ℤ → (nth_bit : ℕ) → (expected : Resolved) → Bool
unfolding bit_of
is_nth_bit_set_properly value nth_bit (scalar (bool true)) = bit_of value nth_bit
is_nth_bit_set_properly value nth_bit (scalar (bool false)) = not (bit_of value nth_bit)
is_nth_bit_set_properly value nth_bit _ = false

-- re.search("[^A-F0-9]", lfdi) is None
unfoldable pub is_uppercase_hex : String → Bool
is_uppercase_hex String.[] = true
is_uppercase_hex (String.◌∷◌ c s) =
    ((leb b'A' (code c) && leb (code c) b'F') || (leb b'0' (code c) && leb (code c) b'9'))
    && is_uppercase_hex s

abbrev pub no_end_device : CheckResult
no_end_device = fail "No EndDevice is currently registered."

module _ (S : Services) where
  abbrev of_site : Site → List String → CheckResult
  of_site site rest = fail (texts ("EndDevice " ∷ S.format (of_int site.site_id) ∷ rest))

  abbrev pen_result : (pen : ℤ) → Result ℤ → CheckResult
  pen_result pen (err e) = fail "Unable to extract PEN from Aggregator LFDI."
  pen_result pen (ok found) =
      if eqb_ℤ pen found
      then pass
      else fail (
          texts (
            "PEN from lfdi '"
            ∷ S.format (of_int found)
            ∷ "' (last 8 hex digits) does not match '"
            ∷ S.format (of_int pen)
            ∷ "'. PEN should be decimal encoded."
            ∷ []))

  -- The last 8 digits of an aggregator's LFDI are the PEN; a device's are not looked at.
  abbrev check_pen : ActiveTestProcedure → Site → CheckResult
  check_pen p site = elim p.client_certificate_type [
    | aggregator ↦
        pen_result p.pen (S.int_of (text (drop (Strings.length site.lfdi - 8) site.lfdi)))
    | _ ↦ pass
  ]

  abbrev check_sfdi : ActiveTestProcedure → Site → (expected : ℤ) → CheckResult
  check_sfdi p site expected =
      if eqb_ℤ expected site.sfdi
      then check_pen p site
      else fail (
          texts (
            "EndDevice sfdi should be derived from the lfdi. Expected "
            ∷ S.format (of_int expected)
            ∷ " but found "
            ∷ S.format (of_int site.sfdi)
            ∷ "."
            ∷ []))

  -- The identifiers of the site, where they are asked for.
  unfoldable pub check_lfdi : ActiveTestProcedure → Site → Result CheckResult
  unfolding is_uppercase_hex
  check_lfdi p site =
      if not (is_uppercase_hex site.lfdi)
      then ok (
          fail (
            texts (
              "EndDevice lfdi must consist only of UPPERCASE hexadecimal characters. Got '"
              ∷ site.lfdi ∷ "'." ∷ [])))
      else if not (Strings.length site.lfdi == 40)
      then ok (
          fail (
            texts (
              "EndDevice lfdi must be 40 hexadecimal characters long. Got "
              ∷ S.format (of_int (pos (Strings.length site.lfdi)))
              ∷ "."
              ∷ [])))
      else elim (S.convert_lfdi_to_sfdi site.lfdi) [
        | err e ↦ err e
        | ok expected ↦ ok (check_sfdi p site expected)
      ]

  -- The checks on the site, for the bits of its category that are asked for.
  unfoldable pub check_site :
      ActiveTestProcedure → Dict Resolved → (anyset : ℕ) → Site → Result CheckResult
  unfolding check_lfdi bitand
  check_site p params anyset site =
      if not (anyset == 0) && bitand anyset site.device_category == 0
      then ok (
          of_site site (
            " has none of the expected ("
            ∷ S.format_binary anyset
            ∷ ") deviceCategory bits set."
            ∷ []))
      else if is_truthy (Dict.get_or "check_lfdi" (scalar (bool false)) params)
      then check_lfdi p site
      else ok pass

  abbrev has_nmi : Option String → Bool
  has_nmi none = false
  has_nmi (some nmi) = is_truthy (scalar (text nmi))

  unfoldable pub check_end_device_contents :
      ActiveTestProcedure → Dict Resolved → Query S CheckResult
  unfolding check_site
  check_end_device_contents p params = do
    active ← query_active_site S
    on_option active (pure no_end_device) (λ site.
        if is_truthy (Dict.get_or "has_connection_point_id" (scalar (bool false)) params)
          && not (has_nmi site.nmi)
        then pure (of_site site (" has no ConnectionPoint id specified." ∷ []))
        else (do
          anyset ← lift (S.int_hex (Dict.get_or "deviceCategory_anyset" (scalar (text "0")) params))
          lift (check_site p params anyset site)))
