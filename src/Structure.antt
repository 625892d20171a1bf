-- ===== src/Structure.antt =====
-- waldur_core/structure: roles in customers and projects, who may do what, the resources that
-- are pulled from a backend, the links of services and projects, the throttling of provisions, the
-- views on permissions, and the registry of services.
pub mod Permissions
pub mod Access
pub mod Pull
pub mod Links
pub mod Provisioning
pub mod Grants
pub mod Registry
