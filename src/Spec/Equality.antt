-- ===== src/Spec/Equality.antt =====
-- The derived `PartialEq` of the specifications, field by field.
use kubsd.Base.{◌≡◌, refl, ◌↔◌, Bool, true, false, ◌&&◌, List, [], ◌∷◌, arith}
use kubsd.Base.Str.{Str, str_eq, str_eq_iff}
use kubsd.Spec.Types.{
  VolumeMount, RestartPolicy, always, on_failure, never, TemplateNetworkSpec, ResourcesSpec,
  JailTemplate,
}

unfoldable pub bool_eq : Bool → Bool → Bool
bool_eq true b = b
bool_eq false true = false
bool_eq false false = true

pub bool_eq_iff : (a b : Bool) → (bool_eq a b ≡ true) ↔ (a ≡ b)
unfolding bool_eq
bool_eq_iff a b = ground arith

unfoldable pub policy_eq : RestartPolicy → RestartPolicy → Bool
policy_eq always always = true
policy_eq on_failure on_failure = true
policy_eq never never = true
policy_eq _ _ = false

pub policy_eq_iff : (a b : RestartPolicy) → (policy_eq a b ≡ true) ↔ (a ≡ b)
unfolding policy_eq
policy_eq_iff a b = ground arith

unfoldable pub command_eq : List Str → List Str → Bool
command_eq [] [] = true
command_eq (x ∷ xs) (y ∷ ys) = str_eq x y && command_eq xs ys
command_eq _ _ = false

pub command_eq_iff : (xs ys : List Str) → (command_eq xs ys ≡ true) ↔ (xs ≡ ys)
unfolding command_eq
command_eq_iff [] [] = (λ h. refl, λ h. refl)
command_eq_iff [] (y ∷ ys) = (λ h. cc, λ h. cc)
command_eq_iff (x ∷ xs) [] = (λ h. cc, λ h. cc)
command_eq_iff (x ∷ xs) (y ∷ ys) = (
  λ h. ground (arith, str_eq_iff x y, command_eq_iff xs ys),
  λ h. ground (arith, str_eq_iff x y, command_eq_iff xs ys),
)

unfoldable pub volume_eq : VolumeMount → VolumeMount → Bool
volume_eq a b = str_eq a.name b.name && (str_eq a.mount_path b.mount_path && str_eq a.size b.size)

pub volume_eq_iff : (a b : VolumeMount) → (volume_eq a b ≡ true) ↔ (a ≡ b)
unfolding volume_eq
volume_eq_iff a b = ground (
  arith,
  str_eq_iff a.name b.name,
  str_eq_iff a.mount_path b.mount_path,
  str_eq_iff a.size b.size,
)

unfoldable pub volumes_eq : List VolumeMount → List VolumeMount → Bool
volumes_eq [] [] = true
volumes_eq (x ∷ xs) (y ∷ ys) = volume_eq x y && volumes_eq xs ys
volumes_eq _ _ = false

pub volumes_eq_iff : (xs ys : List VolumeMount) → (volumes_eq xs ys ≡ true) ↔ (xs ≡ ys)
unfolding volumes_eq
volumes_eq_iff [] [] = (λ h. refl, λ h. refl)
volumes_eq_iff [] (y ∷ ys) = (λ h. cc, λ h. cc)
volumes_eq_iff (x ∷ xs) [] = (λ h. cc, λ h. cc)
volumes_eq_iff (x ∷ xs) (y ∷ ys) = (
  λ h. ground (arith, volume_eq_iff x y, volumes_eq_iff xs ys),
  λ h. ground (arith, volume_eq_iff x y, volumes_eq_iff xs ys),
)

unfoldable pub network_eq : TemplateNetworkSpec → TemplateNetworkSpec → Bool
network_eq a b = bool_eq a.vnet b.vnet && str_eq a.bridge b.bridge

pub network_eq_iff : (a b : TemplateNetworkSpec) → (network_eq a b ≡ true) ↔ (a ≡ b)
unfolding network_eq
network_eq_iff a b = ground (arith, bool_eq_iff a.vnet b.vnet, str_eq_iff a.bridge b.bridge)

unfoldable pub resources_eq : ResourcesSpec → ResourcesSpec → Bool
resources_eq a b = str_eq a.cpu b.cpu && str_eq a.memory b.memory

pub resources_eq_iff : (a b : ResourcesSpec) → (resources_eq a b ≡ true) ↔ (a ≡ b)
unfolding resources_eq
resources_eq_iff a b = ground (arith, str_eq_iff a.cpu b.cpu, str_eq_iff a.memory b.memory)

-- `JailTemplate: PartialEq`
unfoldable pub template_eq : JailTemplate → JailTemplate → Bool
unfolding network_eq resources_eq command_eq volumes_eq policy_eq
template_eq a b =
    str_eq a.image b.image
    && (command_eq a.command b.command
        && (network_eq a.network b.network
            && (resources_eq a.resources b.resources
                && (policy_eq a.restart_policy b.restart_policy
                    && volumes_eq a.volumes b.volumes))))

-- The derived test is equality.
pub template_eq_iff : (a b : JailTemplate) → (template_eq a b ≡ true) ↔ (a ≡ b)
unfolding template_eq
template_eq_iff a b = ground (
  arith,
  str_eq_iff a.image b.image,
  command_eq_iff a.command b.command,
  network_eq_iff a.network b.network,
  resources_eq_iff a.resources b.resources,
  policy_eq_iff a.restart_policy b.restart_policy,
  volumes_eq_iff a.volumes b.volumes,
)
