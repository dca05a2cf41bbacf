-- ===== src/Owner/Order.antt =====
-- controllers/bgpconfiguration_controller.go: configPrecedes as an order.
use text.Mathlib.TextEquality.{eq_iff}
use k8gobgp.Prelude.{◌≡◌, true, false, arith}
use k8gobgp.Prelude.Text.{text_ltb_irrefl, text_ltb_total, text_ltb_neg_trans, text_ltb_asym}
use k8gobgp.Crd.{BgpConfiguration}
use k8gobgp.Owner.{config_precedes}

pub config_precedes_irrefl : (a : BgpConfiguration) → config_precedes a a ≡ false
unfolding config_precedes
config_precedes_irrefl a = ground (arith, text_ltb_irrefl a.name, text_ltb_irrefl a.namespace)

pub config_precedes_neg_trans :
    (a b c : BgpConfiguration)
    → config_precedes a b ≡ false
    → config_precedes b c ≡ false
    → config_precedes a c ≡ false
unfolding config_precedes
config_precedes_neg_trans a b c p q = ground (
  arith,
  eq_iff a.namespace b.namespace,
  eq_iff b.namespace c.namespace,
  eq_iff a.namespace c.namespace,
  text_ltb_neg_trans a.namespace b.namespace c.namespace,
  text_ltb_neg_trans a.name b.name c.name,
  text_ltb_total a.namespace b.namespace,
  text_ltb_total b.namespace c.namespace,
)

pub config_precedes_total :
    (a b : BgpConfiguration)
    → config_precedes a b ≡ false
    → config_precedes b a ≡ false
    → (a.namespace ≡ b.namespace) × (a.name ≡ b.name)
unfolding config_precedes
config_precedes_total a b p q = (
  ground (
    arith,
    eq_iff a.namespace b.namespace,
    eq_iff b.namespace a.namespace,
    text_ltb_total a.namespace b.namespace,
  ),
  ground (
    arith,
    eq_iff a.namespace b.namespace,
    eq_iff b.namespace a.namespace,
    text_ltb_total a.namespace b.namespace,
    text_ltb_total a.name b.name,
  ),
)

pub config_precedes_asym :
    (a b : BgpConfiguration) → config_precedes a b ≡ true → config_precedes b a ≡ false
unfolding config_precedes
config_precedes_asym a b p = ground (
  arith,
  eq_iff a.namespace b.namespace,
  eq_iff b.namespace a.namespace,
  text_ltb_asym a.namespace b.namespace,
  text_ltb_asym a.name b.name,
)
