-- ===== src/Users.antt =====
-- waldur_core/users: invitations to customers and projects.
pub mod Invitations
