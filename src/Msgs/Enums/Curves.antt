-- ===== src/Msgs/Enums/Curves.antt =====
-- `NamedCurve`, `EcCurveType` of crates/tls/core/src/msgs/enums.rs.
use tlsn.Common.{ℕ, ◌==◌, if◌then◌else◌}
use tlsn.Msgs.Enums.Defs.{WireEnum}

pub data NamedCurve : Type 0 where
  sect163k1 sect163r1 sect163r2 sect193r1 sect193r2 : NamedCurve
  sect233k1 sect233r1 sect239k1 sect283k1 sect283r1 : NamedCurve
  sect409k1 sect409r1 sect571k1 sect571r1 secp160k1 : NamedCurve
  secp160r1 secp160r2 secp192k1 secp192r1 secp224k1 : NamedCurve
  secp224r1 secp256k1 secp256r1 secp384r1 secp521r1 : NamedCurve
  brainpoolp256r1 brainpoolp384r1 brainpoolp512r1 x25519 x448 : NamedCurve
  arbitrary_explicit_prime_curves arbitrary_explicit_char2_curves : NamedCurve
  unknown : ℕ → NamedCurve

abbrev pub named_curve_get : NamedCurve → ℕ
named_curve_get NamedCurve.sect163k1 = 0x0001
named_curve_get NamedCurve.sect163r1 = 0x0002
named_curve_get NamedCurve.sect163r2 = 0x0003
named_curve_get NamedCurve.sect193r1 = 0x0004
named_curve_get NamedCurve.sect193r2 = 0x0005
named_curve_get NamedCurve.sect233k1 = 0x0006
named_curve_get NamedCurve.sect233r1 = 0x0007
named_curve_get NamedCurve.sect239k1 = 0x0008
named_curve_get NamedCurve.sect283k1 = 0x0009
named_curve_get NamedCurve.sect283r1 = 0x000a
named_curve_get NamedCurve.sect409k1 = 0x000b
named_curve_get NamedCurve.sect409r1 = 0x000c
named_curve_get NamedCurve.sect571k1 = 0x000d
named_curve_get NamedCurve.sect571r1 = 0x000e
named_curve_get NamedCurve.secp160k1 = 0x000f
named_curve_get NamedCurve.secp160r1 = 0x0010
named_curve_get NamedCurve.secp160r2 = 0x0011
named_curve_get NamedCurve.secp192k1 = 0x0012
named_curve_get NamedCurve.secp192r1 = 0x0013
named_curve_get NamedCurve.secp224k1 = 0x0014
named_curve_get NamedCurve.secp224r1 = 0x0015
named_curve_get NamedCurve.secp256k1 = 0x0016
named_curve_get NamedCurve.secp256r1 = 0x0017
named_curve_get NamedCurve.secp384r1 = 0x0018
named_curve_get NamedCurve.secp521r1 = 0x0019
named_curve_get NamedCurve.brainpoolp256r1 = 0x001a
named_curve_get NamedCurve.brainpoolp384r1 = 0x001b
named_curve_get NamedCurve.brainpoolp512r1 = 0x001c
named_curve_get NamedCurve.x25519 = 0x001d
named_curve_get NamedCurve.x448 = 0x001e
named_curve_get NamedCurve.arbitrary_explicit_prime_curves = 0xff01
named_curve_get NamedCurve.arbitrary_explicit_char2_curves = 0xff02
named_curve_get (NamedCurve.unknown x) = x

unfoldable pub named_curve_from : ℕ → NamedCurve
named_curve_from x =
    if x == 0x0001
    then NamedCurve.sect163k1
    else if x == 0x0002
    then NamedCurve.sect163r1
    else if x == 0x0003
    then NamedCurve.sect163r2
    else if x == 0x0004
    then NamedCurve.sect193r1
    else if x == 0x0005
    then NamedCurve.sect193r2
    else if x == 0x0006
    then NamedCurve.sect233k1
    else if x == 0x0007
    then NamedCurve.sect233r1
    else if x == 0x0008
    then NamedCurve.sect239k1
    else if x == 0x0009
    then NamedCurve.sect283k1
    else if x == 0x000a
    then NamedCurve.sect283r1
    else if x == 0x000b
    then NamedCurve.sect409k1
    else if x == 0x000c
    then NamedCurve.sect409r1
    else if x == 0x000d
    then NamedCurve.sect571k1
    else if x == 0x000e
    then NamedCurve.sect571r1
    else if x == 0x000f
    then NamedCurve.secp160k1
    else if x == 0x0010
    then NamedCurve.secp160r1
    else if x == 0x0011
    then NamedCurve.secp160r2
    else if x == 0x0012
    then NamedCurve.secp192k1
    else if x == 0x0013
    then NamedCurve.secp192r1
    else if x == 0x0014
    then NamedCurve.secp224k1
    else if x == 0x0015
    then NamedCurve.secp224r1
    else if x == 0x0016
    then NamedCurve.secp256k1
    else if x == 0x0017
    then NamedCurve.secp256r1
    else if x == 0x0018
    then NamedCurve.secp384r1
    else if x == 0x0019
    then NamedCurve.secp521r1
    else if x == 0x001a
    then NamedCurve.brainpoolp256r1
    else if x == 0x001b
    then NamedCurve.brainpoolp384r1
    else if x == 0x001c
    then NamedCurve.brainpoolp512r1
    else if x == 0x001d
    then NamedCurve.x25519
    else if x == 0x001e
    then NamedCurve.x448
    else if x == 0xff01
    then NamedCurve.arbitrary_explicit_prime_curves
    else if x == 0xff02
    then NamedCurve.arbitrary_explicit_char2_curves
    else NamedCurve.unknown x

abbrev pub named_curve_enum : WireEnum NamedCurve
named_curve_enum = record { get = named_curve_get; from = named_curve_from }

pub data EcCurveType : Type 0 where
  explicit_prime explicit_char2 named_curve : EcCurveType
  unknown : ℕ → EcCurveType

abbrev pub ec_curve_type_get : EcCurveType → ℕ
ec_curve_type_get EcCurveType.explicit_prime = 0x01
ec_curve_type_get EcCurveType.explicit_char2 = 0x02
ec_curve_type_get EcCurveType.named_curve = 0x03
ec_curve_type_get (EcCurveType.unknown x) = x

unfoldable pub ec_curve_type_from : ℕ → EcCurveType
ec_curve_type_from x =
    if x == 0x01
    then EcCurveType.explicit_prime
    else if x == 0x02
    then EcCurveType.explicit_char2
    else if x == 0x03
    then EcCurveType.named_curve
    else EcCurveType.unknown x

abbrev pub ec_curve_type_enum : WireEnum EcCurveType
ec_curve_type_enum = record { get = ec_curve_type_get; from = ec_curve_type_from }
