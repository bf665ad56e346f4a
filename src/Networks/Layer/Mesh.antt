-- ===== src/Networks/Layer/Mesh.antt =====
-- What a layer of Istio policies allows in one direction, of connections to or from the workloads that
-- its policies may capture.
use network_config_analyzer.Policies.Connectivity.{Connectivity}
use network_config_analyzer.Policies.NetPolicy.{NetPolicy}
