-- ===== src/Toolchains/Tests.antt =====
-- Two texts of one catalog.
use xmcl_shared_node_agent.Base.{◌≡◌, refl, true}
use xmcl_shared_node_agent.Js.Text.{lt_string}
use xmcl_shared_node_agent.Js.Value.{Value, int, obj, field, end}
use xmcl_shared_node_agent.Compiler.Sample
use xmcl_shared_node_agent.Toolchains.Canonical.{catalog_revision_for}
use xmcl_shared_node_agent.Toolchains.Canonical.Order.{
  SameValue, objects, next, swap, through, none_left, catalog_revision_for-SameValue,
}

abbrev catalog : Value
catalog = obj (
    field "hosts" (obj (field "a" (int 1) (field "b" (int 2) end)))
      (field "schemaVersion" (int 1) end))

abbrev reordered : Value
reordered = obj (
    field "schemaVersion" (int 1)
      (field "hosts" (obj (field "b" (int 2) (field "a" (int 1) end))) end))

outer : lt_string "hosts" "schemaVersion" ≡ true
unfolding lt_string
outer = refl

inner : lt_string "a" "b" ≡ true
unfolding lt_string
inner = refl

reordered_lem : SameValue catalog reordered
reordered_lem =
    objects (through (swap outer) (next SameValue.same (next (objects (swap inner)) none_left)))

catalog_revision_for-SameValue_example :
    catalog_revision_for Sample.host catalog ≡ catalog_revision_for Sample.host reordered
catalog_revision_for-SameValue_example = catalog_revision_for-SameValue Sample.host reordered_lem
