-- ===== src/Kube.antt =====
-- internal/kube/controller.go: the controller of the workspaces' Kubernetes objects.
pub mod Objects
pub mod Reconcile
pub mod Status
pub mod Lifecycle
pub mod Preserved
