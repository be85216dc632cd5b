-- ===== src/Policy/Delivery/Laws.antt =====
-- What a delivery's id and its acknowledgement determine.
use rs_console.Common.{◌≡◌, ◌↔◌, true, [], ◌∷◌, ◌++◌, arith, Text, take}
use rs_console.Common.Decimal.{print_nat, print_nat_injective, AllDigits, print_nat-AllDigits}
use rs_console.Policy.Ids.{ManifestDigest}
use rs_console.Policy.Manifest.{Generation}
use rs_console.Policy.Delivery.{
  PeerDelivery, delivery_name, GatewayAcknowledgement, applied, matches,
}

-- An acknowledgement is accepted for a delivery exactly when it is the one that `applied` makes of
-- the delivery, in all seven fields.
pub matches_iff :
    (a : GatewayAcknowledgement) (delivery : PeerDelivery)
    → (matches a delivery ≡ true) ↔ (a ≡ applied delivery)
unfolding matches applied
matches_iff a delivery = (λ h. ground arith, λ e. ground arith)

-- A run of digits ends at the first dash.
digits_dash :
    (s t u w : Text) → AllDigits s → AllDigits t → s ++ b'-' ∷ u ≡ t ++ b'-' ∷ w → (s ≡ t) × (u ≡ w)
digits_dash [] [] u w h k e = ground arith
digits_dash [] (d ∷ t) u w h k e = ground arith
digits_dash (c ∷ s) [] u w h k e = ground arith
digits_dash (c ∷ s) (d ∷ t) u w h k e = ground (arith, digits_dash s t u w h.2 k.2)

-- A delivery's id determines the generation of the manifest and the first twelve characters of its
-- digest.
pub delivery_name_injective :
    (g h : Generation) (d e : ManifestDigest)
    → delivery_name g d ≡ delivery_name h e
    → (g ≡ h) × (take 12 d ≡ take 12 e)
unfolding delivery_name
delivery_name_injective g h d e p =
    let rest : print_nat g ++ b'-' ∷ take 12 d ≡ print_nat h ++ b'-' ∷ take 12 e = ground arith in
    let (numbers, digests) =
      digits_dash (print_nat g) (print_nat h) (take 12 d) (take 12 e) (print_nat-AllDigits g)
        (print_nat-AllDigits h) rest in
    (print_nat_injective g h numbers, digests)
