-- ===== src/Tests.antt =====
-- Examples of the theorems, on small tables and with small stand-ins for the libraries.
mod Libraries
mod Tables
mod Life
mod Access
mod Admins
mod Limits
mod Files
mod Signin
mod Cleaning
mod History
mod Notices
mod Race
mod Vault
mod Sealing
mod Uploads
mod Jwt
