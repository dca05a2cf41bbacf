-- ===== src/Reconcile/Messages.antt =====
-- controllers/bgpconfiguration_controller.go: the texts that Reconcile writes into the status.
use Prim.Native.String.{◌++◌}
use k8gobgp.Prelude.{String}

unfoldable pub duplicate_message : String → String → String → String
duplicate_message namespace name node_name =
    "BGPConfiguration " ++ namespace ++ "/" ++ name ++ " already manages gobgpd on node "
    ++ node_name
    ++ ". Only one BGPConfiguration per node is supported, so this one is ignored and no BGP state is applied from it."

-- `fmt.Errorf("<label>: %w", err)`
unfoldable pub wrapped : String → String → String
wrapped label error = label ++ ": " ++ error
