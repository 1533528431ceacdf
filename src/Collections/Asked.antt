-- ===== src/Collections/Asked.antt =====
-- frontend/src/components/hubs/ingestion/CollectionsWorkspace.tsx: a collection with documents is deleted
-- by force only after a plain deletion was refused.
