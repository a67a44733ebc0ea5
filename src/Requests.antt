-- ===== src/Requests.antt =====
-- The requests that the frontend sends to the gateway: frontend/src/pages/Explorer.tsx and the
-- explorer and trace runner of frontend/src/App.tsx.
pub mod Encode
pub mod Decode
pub mod RoundTrip
pub mod Build
pub mod Received
mod Examples
