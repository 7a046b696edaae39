-- ===== src/Policy/Registry.antt =====
-- The registry's three views of an action agree: by its constructor, by its type's name and in what
-- an approval names.
use fubun.Prelude.{◌≡◌, refl, some, ok, inl, inr}
use fubun.Prelude.Sort.{Elem}
use fubun.Domain.Action.{
  ActionSpec, linux_app_ensure_running, linux_path_open, desktop_notification_show,
  browser_tab_ensure_open, action_type,
}
use fubun.Policy.{descriptor, descriptor_by_type, descriptors, approval_fields, validate_action}

pub record Agrees (action : ActionSpec) : Type 0 where
  permitted : validate_action action ≡ ok (descriptor action)
  by_type : descriptor_by_type (action_type action) ≡ some (descriptor action)
  listed : Elem (descriptor action) descriptors
  approved_type : (approval_fields action).action_type ≡ action_type action
  approved_capability :
      (approval_fields action).capability ≡ (descriptor action).required_capability

-- Each action is permitted, its descriptor is the one that its type's name finds and is among those
-- listed, and an approval of it names its type and the capability that its descriptor requires.
pub registry-Agrees : (action : ActionSpec) → Agrees action
unfolding descriptor descriptor_by_type approval_fields validate_action action_type
registry-Agrees (linux_app_ensure_running app_id) = record {
  permitted = refl;
  by_type = refl;
  listed = inl refl;
  approved_type = refl;
  approved_capability = refl;
}
registry-Agrees (linux_path_open resource_id) = record {
  permitted = refl;
  by_type = refl;
  listed = inr (inl refl);
  approved_type = refl;
  approved_capability = refl;
}
registry-Agrees (desktop_notification_show title body) = record {
  permitted = refl;
  by_type = refl;
  listed = inr (inr (inl refl));
  approved_type = refl;
  approved_capability = refl;
}
registry-Agrees (browser_tab_ensure_open resource_id) = record {
  permitted = refl;
  by_type = refl;
  listed = inr (inr (inr (inl refl)));
  approved_type = refl;
  approved_capability = refl;
}
