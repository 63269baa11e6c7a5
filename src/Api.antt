-- ===== src/Api.antt =====
-- The fields of the Kubernetes and CDI types that the driver reads or writes: `ResourceClaim` and its
-- allocation (k8s.io/api/resource/v1), the kubelet's `Device`, and the CDI `Spec`.
use dra_example_driver.Common.{Bool, Option, List, Text}

pub record DeviceResult : Type 0 where
  pub request : Text
  pub driver : Text
  pub pool : Text
  pub device : Text
  pub admin_access : Option Bool

pub data ConfigSource : Type 0 where
  from_class from_claim : ConfigSource
  other_source : Text → ConfigSource

-- `parameters` is `Opaque.Parameters.Raw`.
pub record OpaqueParameters : Type 0 where
  pub driver : Text
  pub parameters : Text

pub record DeviceConfiguration : Type 0 where
  pub source : ConfigSource
  pub requests : List Text
  pub opaque : Option OpaqueParameters

pub record Allocation : Type 0 where
  pub results : List DeviceResult
  pub config : List DeviceConfiguration

-- `allocation` is `Status.Allocation`, a pointer.
pub record ResourceClaim : Type 0 where
  pub uid : Text
  pub namespace : Text
  pub name : Text
  pub allocation : Option Allocation

-- The kubelet's `drapbv1.Device`.
pub record Device : Type 0 where
  pub request_names : List Text
  pub pool_name : Text
  pub device_name : Text
  pub cdi_device_ids : List Text

pub record Mount : Type 0 where
  pub host_path : Text
  pub container_path : Text
  pub options : List Text

pub record ContainerEdits : Type 0 where
  pub env : List Text
  pub mounts : List Mount

pub record CdiDevice : Type 0 where
  pub name : Text
  pub edits : ContainerEdits

pub record Spec : Type 0 where
  pub version : Text
  pub kind : Text
  pub devices : List CdiDevice
